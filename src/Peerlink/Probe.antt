-- ===== src/Peerlink/Probe.antt =====
-- `probeState` of client/internal/peerlink/link.go. A `time.Time` is the nanoseconds since Go's zero
-- time, and a pong the nanoseconds since 1970, 0 for none. A difference of times below zero is 0: it
-- is compared with positive durations only.
pub mod Promotion
pub mod Backoff
use blinex.Prelude.{
  ℕ, ◌+◌, ◌-◌, ◌*◌, Bool, true, false, not, ◌&&◌, ltb, leb, ◌==◌, nat_eq, if◌then◌else◌,
}

abbrev pub second : ℕ
second = 1_000_000_000

abbrev pub probe_timeout : ℕ
probe_timeout = 10 * second

abbrev pub upgrade_threshold : ℕ
upgrade_threshold = 3

abbrev pub min_upgrade_backoff : ℕ
min_upgrade_backoff = 15 * second

abbrev pub max_upgrade_backoff : ℕ
max_upgrade_backoff = 300 * second

abbrev pub backoff_reset_after : ℕ
backoff_reset_after = 120 * second

-- `time.Unix(0, ns)`
abbrev pub unix : ℕ → ℕ
unix ns = 62_135_596_800 * second + ns

pub record ProbeState : Type 0 where
  pub consecutive_good : ℕ
  pub seen_pong : ℕ
  pub backoff : ℕ
  pub next_upgrade : ℕ
  pub promoted_at : ℕ
  pub direct : Bool

unfoldable pub new_probe_state : ProbeState
new_probe_state = record {
  consecutive_good = 0;
  seen_pong = 0;
  backoff = min_upgrade_backoff;
  next_upgrade = 0;
  promoted_at = 0;
  direct = false;
}

-- The results `promote`, `demote` and `retryIn`.
pub record Verdict : Type 0 where
  pub promote : Bool
  pub demote : Bool
  pub retry_in : ℕ

abbrev pub stay : Verdict
stay = record { promote = false; demote = false; retry_in = 0 }

unfoldable pub is_answered : ProbeState → ℕ → ℕ → Bool
is_answered p pong now =
    not (pong == 0) && not (pong == p.seen_pong) && ltb (now - unix pong) probe_timeout

-- The path is direct and the tick was not answered.
demote : ProbeState → ℕ → Verdict × ProbeState
demote p now =
    let backoff =
      if not (p.promoted_at == 0) && leb backoff_reset_after (now - p.promoted_at)
      then min_upgrade_backoff
      else p.backoff in
    (
      record { promote = false; demote = true; retry_in = backoff },
      record p {
        direct = false;
        next_upgrade = now + backoff;
        backoff =
            if ltb max_upgrade_backoff (backoff * 2) then max_upgrade_backoff else backoff * 2;
      },
    )

decide : ProbeState → Bool → ℕ → Verdict × ProbeState
decide p answered now =
    if p.direct
    then (if answered then (stay, p) else demote p now)
    else if leb upgrade_threshold p.consecutive_good && ltb p.next_upgrade now
    then (
      record { promote = true; demote = false; retry_in = 0 },
      record p { direct = true; promoted_at = now },
    )
    else (stay, p)

-- `observe`
unfoldable pub observe : ProbeState → ℕ → ℕ → Verdict × ProbeState
unfolding is_answered demote decide
observe p pong now =
    let answered = is_answered p pong now in
    decide
      (record p {
        seen_pong = pong;
        consecutive_good = if answered then p.consecutive_good + 1 else 0;
      })
      answered now
