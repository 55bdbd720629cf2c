-- ===== src/Transactions/Timeout.antt =====
-- `transaction_timeout_handler` of app-framework/base/app/request.c.
use mathlib.Core.List.{reverse, reverse-cons}
use wamr_app_framework.Prelude.{
  ℕ, ◌+◌, ◌%◌, ◌^◌, ◌≤◌, ◌<◌, ◌≡◌, inl, inr, refl, sym, ap, subst, ◌∙◌, List, [], ◌∷◌, ◌++◌,
  append_assoc, append-nil, map, Option, none, some, leb, Bool-cases, All, arith,
}
use wamr_app_framework.Restful.{ok}
use wamr_app_framework.Transactions.{
  Transaction, Call, State, ms_to_expiry, take_expired, call_expired, timer_for,
  transaction_timeout_handler, transaction_timeout_ms, elapsed_ms,
}

abbrev pub IsExpired : ℕ → Transaction → Type 0
IsExpired now t = transaction_timeout_ms ≤ elapsed_ms now t.time

-- The first of a list has not expired.
abbrev pub HeadIsPending : ℕ → List Transaction → Type 0
HeadIsPending now [] = Unit {0}
HeadIsPending now (t ∷ rest) = elapsed_ms now t.time < transaction_timeout_ms

-- The longest front of expired transactions, and what is behind it.
pub record Parts (now : ℕ) (l front left : List Transaction) : Type 0 where
  pub split : l ≡ front ++ left
  pub old : All (IsExpired now) front
  pub pending : HeadIsPending now left

-- The call of a handler for a transaction that had no response.
abbrev pub timed_out : Transaction → Call
timed_out t = record { handler = t.handler; response = none; user_data = t.user_data }

-- The timer's interval and the time elapsed for the first of the list make the five seconds, on the
-- clock of 32 bits; there is no timer for an empty list.
abbrev pub TimerRuns : ℕ → List Transaction → Option ℕ → Type 0
TimerRuns now [] timer = timer ≡ none
TimerRuns now (t ∷ rest) timer =
    (ms : ℕ) × (timer ≡ some ms) × (ms < 2 ^ 32) × ((ms + elapsed_ms now t.time) % 2 ^ 32 ≡ 5000)

-- The parts of a run that had `acc` before.
record PartsFrom (now : ℕ) (l left expired acc : List Transaction) : Type 0 where
  front : List Transaction
  parts : Parts now l front left
  reversed : expired ≡ reverse front ++ acc

take_expired-PartsFrom :
    (now : ℕ) (l acc : List Transaction)
    → PartsFrom now l (take_expired now l acc).0 (take_expired now l acc).1 acc
unfolding take_expired
take_expired-PartsFrom now [] acc = record {
  front = [];
  parts = record { split = refl; old = tt; pending = tt };
  reversed = refl;
}
take_expired-PartsFrom now (cur ∷ rest) acc =
    elim (Bool-cases (leb transaction_timeout_ms (elapsed_ms now cur.time))) [
      | inl old ↦
          let more = take_expired-PartsFrom now rest (cur ∷ acc) in
          rw old (record {
            front = cur ∷ more.front;
            parts = record {
              split = ap (◌∷◌ cur) more.parts.split;
              old = (ground arith, more.parts.old);
              pending = more.parts.pending;
            };
            reversed =
                more.reversed
                ∙ sym (append_assoc (reverse more.front) (cur ∷ []) acc)
                ∙ ap (λ r. r ++ acc) (sym (reverse-cons cur more.front));
          })
      | inr new ↦ rw new (record {
        front = [];
        parts = record { split = refl; old = tt; pending = ground arith };
        reversed = refl;
      })
    ]

call_expired-timed_out : (l : List Transaction) → call_expired l ≡ map timed_out l
unfolding call_expired
call_expired-timed_out [] = refl
call_expired-timed_out (t ∷ rest) = ap (◌∷◌ (timed_out t)) (call_expired-timed_out rest)

elapsed_ms-lt : (now time : ℕ) → now < 2 ^ 32 → elapsed_ms now time < 2 ^ 32
unfolding elapsed_ms
elapsed_ms-lt now time h = ground arith

timer_for-TimerRuns :
    (now ms : ℕ) (l : List Transaction)
    → now < 2 ^ 32
    → (timer : Option ℕ) × (timer_for now l (some ms) ≡ ok timer) × TimerRuns now l timer
unfolding timer_for ms_to_expiry
timer_for-TimerRuns now ms [] h = (none, refl, refl)
timer_for-TimerRuns now ms (t ∷ rest) h =
    let low = elapsed_ms-lt now t.time h in
    (some (ms_to_expiry now t.time), refl, (_, refl, omega arith, omega arith))

-- Where the timer exists, the timeout returns. It takes the longest front of expired transactions
-- off the list, calls the handler of each of them once, with no response and its own user data, the
-- last of them first, and restarts the timer for the first of the others, or stops it where there is
-- none: the new interval and the time elapsed for that transaction add up to five seconds modulo
-- 2 ^ 32. What was posted stays. The second reading of the clock is below 2 ^ 32.
pub transaction_timeout_handler-Parts :
    (now later ms : ℕ) (s : State)
    → s.g_trans_timer ≡ some ms
    → later < 2 ^ 32
    → (front : List Transaction) × (s' : State) × (transaction_timeout_handler now later s ≡ ok s')
      × Parts now s.g_transactions front s'.g_transactions
      × (s'.calls ≡ s.calls ++ map timed_out (reverse front))
      × TimerRuns later s'.g_transactions s'.g_trans_timer
      × (s'.posted ≡ s.posted)
unfolding transaction_timeout_handler
transaction_timeout_handler-Parts now later ms s e low =
    let l = take_expired now s.g_transactions [] in
    let p = take_expired-PartsFrom now s.g_transactions [] in
    let t = timer_for-TimerRuns later ms l.0 low in
    let calls = s.calls ++ call_expired l.1 in
    (
      p.front,
      record s { g_transactions = l.0; calls = calls; g_trans_timer = t.0 },
      (let f = ap (timer_for later l.0) e ∙ t.1 in ground (arith, f)),
      p.parts,
      ap (λ c. s.calls ++ c)
          (call_expired-timed_out l.1
            ∙ ap (map timed_out) (p.reversed ∙ append-nil (reverse p.front))),
      t.2,
      refl,
    )

-- The oldest transactions come first.
abbrev pub IsByAge : ℕ → List Transaction → Type 0
IsByAge now [] = Unit {0}
IsByAge now (t ∷ rest) =
    All (λ u. elapsed_ms now u.time ≤ elapsed_ms now t.time) rest × IsByAge now rest

abbrev pub IsPending : ℕ → Transaction → Type 0
IsPending now t = elapsed_ms now t.time < transaction_timeout_ms

younger-IsPending :
    (now bound : ℕ) (l : List Transaction)
    → bound < transaction_timeout_ms
    → All (λ u. elapsed_ms now u.time ≤ bound) l
    → All (IsPending now) l
younger-IsPending now bound [] h a = tt
younger-IsPending now bound (t ∷ rest) h a = (omega arith, younger-IsPending now bound rest h a.1)

IsByAge-behind :
    (now : ℕ) (front left : List Transaction) → IsByAge now (front ++ left) → IsByAge now left
IsByAge-behind now [] left h = h
IsByAge-behind now (t ∷ front) left h = IsByAge-behind now front left h.1

head-IsPending :
    (now : ℕ) (left : List Transaction)
    → HeadIsPending now left
    → IsByAge now left
    → All (IsPending now) left
head-IsPending now [] h a = tt
head-IsPending now (t ∷ rest) h a = (h, younger-IsPending now _ rest h a.0)

-- Where the list is ordered by age, as appending keeps it, no expired transaction is left behind.
pub take_expired-IsPending :
    (now : ℕ) (l : List Transaction) → IsByAge now l → All (IsPending now) (take_expired now l []).0
take_expired-IsPending now l h =
    let p = take_expired-PartsFrom now l [] in
    head-IsPending now _ p.parts.pending
      (IsByAge-behind now p.front _ (subst (IsByAge now) p.parts.split h))
