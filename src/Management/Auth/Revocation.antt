-- ===== src/Management/Auth/Revocation.antt =====
-- management/internal/auth/auth.go: what a revocation means for the tokens of a key.
use blinex.Prelude.{
  ℕ, ◌≤◌, ◌≡◌, refl, inl, inr, Option, none, some, List, [], ◌∷◌, ◌==◌, arith, Bool-cases,
}
use blinex.Prelude.Text.{Text, text_eq, text_beq_iff}
use blinex.Prelude.Dict.{get, get-put}
use blinex.Management.Auth.{Claims, Manager, revoke_by_wg_key, validate_token}

-- A revocation of a key, with its time.
pub record Revoked : Type 0 where
  pub key : Text
  pub at : ℕ

-- The revocations of a history, the newest first.
unfoldable pub run_revocations : Manager → List Revoked → Manager
run_revocations m [] = m
run_revocations m (r ∷ rs) = revoke_by_wg_key (run_revocations m rs) r.key r.at

-- The times do not run backwards, and none is before `since`.
abbrev pub Ordered : ℕ → List Revoked → Type 0
Ordered since [] = Unit
Ordered since (r ∷ []) = since ≤ r.at
Ordered since (r ∷ q ∷ rs) = (q.at ≤ r.at) × Ordered since (q ∷ rs)

-- The latest time of a history.
abbrev pub latest : ℕ → List Revoked → ℕ
latest since [] = since
latest since (r ∷ rs) = r.at

latest-le : (since : ℕ) (rs : List Revoked) → Ordered since rs → since ≤ latest since rs
latest-le since [] o = omega arith
latest-le since (r ∷ []) o = o
latest-le since (r ∷ q ∷ rs) o = omega (arith, latest-le since (q ∷ rs) o.1, o.0)

Ordered-tail :
    (since : ℕ) (r : Revoked) (rs : List Revoked) → Ordered since (r ∷ rs) → Ordered since rs
Ordered-tail since r [] o = tt
Ordered-tail since r (q ∷ rs) o = o.1

-- A time of revocation of the key, not before `since`.
abbrev At : Manager → Text → ℕ → Type 0
At m key since = (t : ℕ) × (get m.revoked key ≡ some t) × (since ≤ t)

run-At :
    (m : Manager) (key : Text) (since : ℕ) (rs : List Revoked)
    → Ordered since rs
    → At m key since
    → At (run_revocations m rs) key since
unfolding run_revocations revoke_by_wg_key
run-At m key since [] o a = a
run-At m key since (r ∷ rs) o a =
    let (t, g, le) = run-At m key since rs (Ordered-tail since r rs o) a in
    elim (Bool-cases (r.key == key)) [
      | inl y ↦ (
        r.at,
        rw (get-put (run_revocations m rs).revoked r.key key r.at) (rw y refl),
        latest-le since (r ∷ rs) o,
      )
      | inr n ↦ (t, rw (get-put (run_revocations m rs).revoked r.key key r.at) (rw n g), le)
    ]

-- From the time at which a key is revoked on, a token of the key that was issued then or before is
-- refused, whatever is revoked later, this key or others.
pub validate_token-revoked :
    (parse : Text → Option Claims) (m : Manager) (key : Text) (now : ℕ) (later : List Revoked)
    (token : Text) (claims : Claims)
    → Ordered now later
    → parse token ≡ some claims
    → claims.wg_pub_key ≡ key
    → claims.issued_at ≤ now
    → validate_token parse (run_revocations (revoke_by_wg_key m key now) later) token ≡ none
unfolding validate_token
validate_token-revoked parse m key now later token claims o p k i =
    let a : At (revoke_by_wg_key m key now) key now = (
      now,
      (unfold revoke_by_wg_key in
          rw (get-put m.revoked key key now) (ground (arith, text_beq_iff key key))),
      omega arith,
    ) in
    let (t, g, le) = run-At (revoke_by_wg_key m key now) key now later o a in
    rw p (simp k (rw g (ground (arith, i))))
