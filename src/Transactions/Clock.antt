-- ===== src/Transactions/Clock.antt =====
-- The millisecond clock of app-framework/base/app/request.c, which comes round after 2 ^ 32.
use wamr_app_framework.Prelude.{ℕ, ◌+◌, ◌-◌, ◌%◌, ◌^◌, ◌<◌, ◌≡◌, ltb, if◌then◌else◌, arith}
use wamr_app_framework.Transactions.{elapsed_ms, ms_to_expiry, transaction_timeout_ms}

-- The elapsed time is right across the clock's wrap: `d` milliseconds after `time` it is `d`, for
-- every `d` below 2 ^ 32.
pub elapsed_ms-add :
    (time d : ℕ) → time < 2 ^ 32 → d < 2 ^ 32 → elapsed_ms ((time + d) % 2 ^ 32) time ≡ d
unfolding elapsed_ms
elapsed_ms-add time d ht hd = ground arith

-- The timer runs for the rest of the five seconds of a transaction that has not expired, also
-- across the clock's wrap; for one that is overdue it is started with nearly 2 ^ 32 milliseconds.
pub ms_to_expiry-add :
    (time d : ℕ)
    → time < 2 ^ 32
    → d < 2 ^ 32
    → ms_to_expiry ((time + d) % 2 ^ 32) time ≡ (
        if ltb transaction_timeout_ms d
        then transaction_timeout_ms + 2 ^ 32 - d
        else transaction_timeout_ms - d)
unfolding ms_to_expiry
ms_to_expiry-add time d ht hd = ground (arith, elapsed_ms-add time d ht hd)
