-- ===== src/Connection/Timer.antt =====
-- src/connection.cpp: `Connection::schedule_retransmit`.
use oxen_libquic.Base.{
  ℕ, ◌+◌, ◌-◌, ◌*◌, ◌/◌, ◌%◌, ◌^◌, ◌≤◌, ◌<◌, ◌≡◌, refl, true, false, ltb, ◌==◌, if◌then◌else◌,
  arith, add_size, sub_size,
}

-- What becomes of the timer: it is taken off, it is added with a time from now in seconds and
-- microseconds, or it is added with no time.
pub data Timer : Type 0 where
  deleted : Timer
  after : ℕ → ℕ → Timer
  no_timeout : Timer

-- `exp_ns * 1ns` has an unsigned representation of 64 bits, and so has the difference to a signed
-- duration.
abbrev pub expiry_delta : ℕ → ℕ → ℕ
expiry_delta exp_ns ts = sub_size exp_ns ts

abbrev pub timeval : ℕ → Timer
timeval delta = after (delta / 1000000000) (delta % 1000000000 / 1000)

-- `schedule_retransmit`: `exp_ns` is what ngtcp2_conn_get_expiry gives, `ts` the time in nanoseconds.
unfoldable pub schedule_retransmit : ℕ → ℕ → Timer
schedule_retransmit exp_ns ts =
    let delta = expiry_delta exp_ns ts in
    if exp_ns == 2 ^ 64 - 1
    then deleted
    else if ltb 0 delta
    then timeval (add_size delta 999)
    else no_timeout

-- The time of a timer in microseconds.
abbrev pub micros : ℕ → ℕ → ℕ
micros sec usec = sec * 1000000 + usec

-- The split of a time in nanoseconds, rounded down to a microsecond.
timeval_lem :
    (d : ℕ)
    → let sec = d / 1000000000 in
      let usec = d % 1000000000 / 1000 in
      (timeval d ≡ after sec usec)
      × (usec < 1000000)
      × (micros sec usec * 1000 ≤ d)
      × (d < micros sec usec * 1000 + 1000)
timeval_lem d = (refl, omega arith, omega arith, omega arith)

schedule_retransmit_after :
    (exp_ns ts d : ℕ)
    → exp_ns < 2 ^ 64 - 1
    → 0 < expiry_delta exp_ns ts
    → add_size (expiry_delta exp_ns ts) 999 ≡ d
    → schedule_retransmit exp_ns ts ≡ timeval d
unfolding schedule_retransmit
schedule_retransmit_after exp_ns ts d finite p e =
    let not_max : (exp_ns == 2 ^ 64 - 1) ≡ false = ground arith in
    let positive : ltb 0 (expiry_delta exp_ns ts) ≡ true = ground arith in
    rw (not_max, positive, e) refl

-- A timer for a time to come, less than 2^64 - 999 nanoseconds away and not the greatest number, is
-- exact to the microsecond: it is never early, and less than a microsecond late.
pub schedule_retransmit_exact :
    (exp_ns ts : ℕ)
    → ts < exp_ns
    → exp_ns - ts + 999 < 2 ^ 64
    → exp_ns < 2 ^ 64 - 1
    → (sec usec : ℕ) × (schedule_retransmit exp_ns ts ≡ after sec usec)
      × (usec < 1000000)
      × (exp_ns - ts ≤ micros sec usec * 1000)
      × (micros sec usec * 1000 < exp_ns - ts + 1000)
unfolding schedule_retransmit
schedule_retransmit_exact exp_ns ts h small finite =
    let (e, u, lower, upper) = timeval_lem (exp_ns - ts + 999) in
    (
      (exp_ns - ts + 999) / 1000000000,
      (exp_ns - ts + 999) % 1000000000 / 1000,
      schedule_retransmit_after exp_ns ts (exp_ns - ts + 999) finite (omega arith) (omega arith),
      u,
      omega arith,
      omega arith,
    )

-- A timer that is overdue by more than 999 nanoseconds, at a time below 2^64, is not set to run at
-- once: the difference wraps, and the time set is at least 2^64 nanoseconds, nearly six centuries,
-- less what it is overdue.
pub schedule_retransmit_overdue :
    (exp_ns ts : ℕ)
    → exp_ns + 999 < ts
    → ts < 2 ^ 64
    → (sec usec : ℕ) × (schedule_retransmit exp_ns ts ≡ after sec usec)
      × (2 ^ 64 - (ts - exp_ns) ≤ micros sec usec * 1000)
schedule_retransmit_overdue exp_ns ts h b =
    let d : ℕ = 2 ^ 64 - (ts - exp_ns) + 999 in
    let (e, u, lower, upper) = timeval_lem d in
    (
      d / 1000000000,
      d % 1000000000 / 1000,
      schedule_retransmit_after exp_ns ts d (omega arith) (omega arith) (omega arith),
      omega arith,
    )
