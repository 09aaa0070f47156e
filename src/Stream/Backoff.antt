-- ===== src/Stream/Backoff.antt =====
-- The pacing of the reconnects: the tail of the loop of `SupervisorFunc`, and
-- `SleepWhileStreaming` (ais_stream_client.cpp).
use ais_live_pi.Common.{
  ℕ, zero, suc, ◌+◌, ◌*◌, ◌^◌, ◌≤◌, ◌<◌, min, ◌≡◌, refl, ap, Bool, true, false, ◌&&◌, ◌||◌, ◌⊎◌,
  inl, inr, List, [], ◌∷◌, ◌++◌, ◌∙◌, some, arith, get_elem?, length, All, if◌then◌else◌,
  Bool-cases,
}
use ais_live_pi.Stream.Session.{Flags}
use native.Mathlib.Nat.{pow-suc}
use native.Mathlib.Numerals.{add-one}
use native.Mathlib.Decide.{dec_le}

abbrev pub initial_backoff_seconds : ℕ
initial_backoff_seconds = 2

abbrev pub max_backoff_seconds : ℕ
max_backoff_seconds = 30

-- How long to sleep after a session with these flags.
unfoldable pub wait_after : Flags → ℕ → ℕ
wait_after flags backoff =
    if flags.server_rejected
    then max_backoff_seconds
    else if flags.reached_running
    then initial_backoff_seconds
    else backoff

-- `backoffSeconds` after the sleep.
unfoldable pub double_backoff : ℕ → ℕ
double_backoff backoff = min (backoff * 2) max_backoff_seconds

-- The sleeps between the sessions of one supervisor, whose flags are given.
unfoldable pub waits : ℕ → List Flags → List ℕ
waits backoff [] = []
waits backoff (flags ∷ rest) =
    let wait = wait_after flags backoff in wait ∷ waits (double_backoff wait) rest

-- The rounds of `SleepWhileStreaming`, of which `left` are left and `streaming k` is what the flag
-- reads `k` rounds from now; each round sleeps 100 ms.
unfoldable pub sleep_rounds : (ℕ → Bool) → ℕ → ℕ
sleep_rounds streaming zero = 0
sleep_rounds streaming (suc left) =
    if streaming 0 then suc (sleep_rounds (λ k. streaming (suc k)) left) else 0

unfoldable pub sleep_while_streaming : (ℕ → Bool) → ℕ → ℕ
sleep_while_streaming streaming seconds = sleep_rounds streaming (seconds * 10)

waits-range :
    (backoff : ℕ) (fs : List Flags)
    → 2 ≤ backoff
    → backoff ≤ 30
    → All (λ w. (2 ≤ w) × (w ≤ 30)) (waits backoff fs)
unfolding waits wait_after double_backoff
waits-range backoff [] lo hi = tt
waits-range backoff (flags ∷ fs) lo hi =
    ground (arith, waits-range (double_backoff (wait_after flags backoff)) fs)

-- Whatever the sessions do, every sleep of a supervisor lasts from 2 to 30 seconds.
pub waits_bounds :
    (fs : List Flags) → All (λ w. (2 ≤ w) × (w ≤ 30)) (waits initial_backoff_seconds fs)
waits_bounds fs = waits-range 2 fs (omega arith) (omega arith)

-- A session that was neither rejected nor up.
abbrev pub IsPlainFailure : Flags → Type 0
IsPlainFailure f = (f.server_rejected ≡ false) × (f.reached_running ≡ false)

pow_double : (p b : ℕ) → 0 < p → min (p * min (b * 2) 30) 30 ≡ min (p * 2 * b) 30
pow_double p b h = elim (dec_le (b * 2) 30) [
  | yes small ↦
      let e : min (b * 2) 30 ≡ b * 2 = omega arith in rw e (ap (λ x. min x 30) (grind arith))
  | no large ↦
      let e : min (b * 2) 30 ≡ 30 = omega arith in
      let f : 30 ≤ p * 30 = grind arith in
      let g : 30 ≤ p * 2 * b = grind arith in rw e (omega arith)
]

pow_pos : (i : ℕ) → 0 < 2 ^ i
pow_pos zero = omega arith
pow_pos (suc i) = omega (arith, pow_pos i, pow-suc 2 i)

waits-plain :
    (backoff i : ℕ) (fs : List Flags)
    → backoff ≤ 30
    → All IsPlainFailure fs
    → i < length fs
    → get_elem? (waits backoff fs) i ≡ some (min (2 ^ i * backoff) 30)
unfolding waits wait_after double_backoff
waits-plain b i [] le h lt = absurd (omega arith)
waits-plain b zero (f ∷ fs) le h lt = ground arith
waits-plain b (suc i) (f ∷ fs) le h lt =
    let wait : wait_after f b ≡ b = ground arith in
    let rest = waits-plain (double_backoff b) i fs (omega arith) h.1 (omega arith) in
    rw (wait, pow-suc 2 i) (rest ∙ ap some (pow_double (2 ^ i) b (pow_pos i)))

-- From a start, the sleep after the i-th of a row of plain failures (counted from 0) is
-- 2 ^ (i + 1) seconds, and 30 once that is more.
waits_doubling :
    (i : ℕ) (fs : List Flags)
    → All IsPlainFailure fs
    → i < length fs
    → get_elem? (waits initial_backoff_seconds fs) i ≡ some (min (2 ^ (i + 1)) 30)
waits_doubling i fs h lt = rw (add-one i, pow-suc 2 i) (waits-plain 2 i fs (omega arith) h lt)

resumed :
    (i : ℕ) (rejected : Bool)
    → min (2 ^ i * min ((if rejected then 30 else 2) * 2) 30) 30
      ≡ (if rejected then 30 else min (2 ^ (i + 2)) 30)
resumed i true = omega (arith, pow_pos i)
resumed i false =
    let e : i + 2 ≡ suc (suc i) = omega arith in
    rw (e, pow-suc 2 (suc i), pow-suc 2 i) (omega arith)

waits-reset :
    (backoff i : ℕ) (before : List Flags) (f : Flags) (fs : List Flags)
    → backoff ≤ 30
    → (f.server_rejected || f.reached_running) ≡ true
    → All IsPlainFailure fs
    → i < length fs
    → get_elem? (waits backoff (before ++ f ∷ fs)) (length before + suc i)
      ≡ some (min (2 ^ i * min ((if f.server_rejected then 30 else 2) * 2) 30) 30)
unfolding waits wait_after double_backoff
waits-reset b i [] f fs le e h lt =
    let index : 0 + suc i ≡ suc i = omega arith in
    let base : wait_after f b ≡ (if f.server_rejected then 30 else 2) = ground arith in
    rw (index, base)
      (waits-plain (min ((if f.server_rejected then 30 else 2) * 2) 30) i fs (omega arith) h lt)
waits-reset b i (g ∷ gs) f fs le e h lt =
    let index : suc (length gs) + suc i ≡ suc (length gs + suc i) = omega arith in
    rw index (waits-reset (double_backoff (wait_after g b)) i gs f fs (omega arith) e h lt)

-- Whatever happened before, after a session that the server rejected the i-th of a row of plain
-- failures (counted from 0) sleeps 30 seconds, and after one that ran and was not rejected it
-- sleeps 2 ^ (i + 2) seconds, and 30 once that is more: a good session starts the doubling anew.
pub waits_anew :
    (i : ℕ) (before : List Flags) (f : Flags) (fs : List Flags)
    → (f.server_rejected || f.reached_running) ≡ true
    → All IsPlainFailure fs
    → i < length fs
    → get_elem? (waits initial_backoff_seconds (before ++ f ∷ fs)) (length before + suc i)
      ≡ some (if f.server_rejected then 30 else min (2 ^ (i + 2)) 30)
waits_anew i before f fs e h lt =
    waits-reset 2 i before f fs (omega arith) e h lt ∙ ap some (resumed i f.server_rejected)

-- The flag reads true at the next `n` rounds.
abbrev pub all_on : (ℕ → Bool) → ℕ → Bool
all_on streaming zero = true
all_on streaming (suc n) = streaming 0 && all_on (λ k. streaming (suc k)) n

sleep_rounds_on :
    (streaming : ℕ → Bool) (left : ℕ) → all_on streaming (sleep_rounds streaming left) ≡ true
unfolding sleep_rounds
sleep_rounds_on streaming zero = refl
sleep_rounds_on streaming (suc left) = ground (arith, sleep_rounds_on (λ n. streaming (suc n)) left)

sleep_rounds_ends :
    (streaming : ℕ → Bool) (left : ℕ)
    → (sleep_rounds streaming left ≤ left)
      × ((sleep_rounds streaming left ≡ left) ⊎ (streaming (sleep_rounds streaming left) ≡ false))
unfolding sleep_rounds
sleep_rounds_ends streaming zero = (omega arith, inl refl)
sleep_rounds_ends streaming (suc left) =
    let (most, ends) = sleep_rounds_ends (λ n. streaming (suc n)) left in
    elim (Bool-cases (streaming 0)) [
      | inl on ↦ rw on (omega arith, ground arith)
      | inr off ↦ rw off (omega arith, inr off)
    ]

-- `SleepWhileStreaming` sleeps at most 10 rounds of 100 ms for each second, only while streaming is
-- wanted, and stops short only at a round at which it is not.
pub sleep_while_streaming_lem :
    (streaming : ℕ → Bool) (seconds : ℕ)
    → let r = sleep_while_streaming streaming seconds in
      (r ≤ seconds * 10)
      × (all_on streaming r ≡ true)
      × ((r ≡ seconds * 10) ⊎ (streaming r ≡ false))
unfolding sleep_while_streaming
sleep_while_streaming_lem streaming seconds =
    let (most, ends) = sleep_rounds_ends streaming (seconds * 10) in
    (most, sleep_rounds_on streaming (seconds * 10), ends)
