-- ===== src/Restful.antt =====
-- Messages between applications, the app manager and the host:
-- app-framework/app-native-shared/restful_utils.c and bi-inc/shared_utils.h.
-- A `char *` that ends in a NUL is the list of the bytes before the NUL. An `int` or a `uint32` is
-- its 32-bit pattern, a natural number.
pub mod Copy
pub mod Packet
pub mod Url
use wamr_app_framework.Prelude.{
  ℕ, ◌≡◌, refl, ◌⊎◌, inl, inr, ◌+◌, ◌%◌, ◌^◌, List, [], ◌∷◌, Option, none, some, leb, if◌then◌else◌,
  take, length,
}

-- What a function that returns a pointer comes to: a value, the null pointer, or an access outside
-- the memory that was handed to it.
pub data Outcome {ℓ} (A : Type ℓ) : Type ℓ where
  ok : A → Outcome A
  null : Outcome A
  fault : Outcome A

pub Outcome-cases {ℓ} :
    {A : Type ℓ} (o : Outcome A) → ((a : A) × (o ≡ ok a)) ⊎ ((o ≡ null) ⊎ (o ≡ fault))
Outcome-cases (ok a) = inl (a, refl)
Outcome-cases null = inr (inl refl)
Outcome-cases fault = inr (inr refl)

infixl 5 ◌>>=◌ ◌>>◌
abbrev pub ◌>>=◌ {ℓ κ} : {A : Type ℓ} {B : Type κ} → Outcome A → (A → Outcome B) → Outcome B
ok a >>= f = f a
null >>= f = null
fault >>= f = fault

abbrev pub ◌>>◌ {ℓ} : {B : Type ℓ} → Outcome (Unit {0}) → Outcome B → Outcome B
m >> k = m >>= λ _. k

-- What a `payload` pointer is: null, an integer or handle in place of a pointer, or the memory from
-- the pointer on to the end of its object.
pub data Payload : Type 0 where
  nothing : Payload
  handle : ℕ → Payload
  block : List ℕ → Payload

-- The source of `memcpy(dst, payload, n)`; `none` where it reads outside the object.
unfoldable pub read_payload : Payload → ℕ → Option (List ℕ)
read_payload nothing n = if leb n 0 then some [] else none
read_payload (handle h) n = if leb n 0 then some [] else none
read_payload (block bs) n = if leb n (length bs) then some (take n bs) else none

pub record Request : Type 0 where
  pub mid : ℕ
  pub url : List ℕ
  pub action : ℕ
  pub fmt : ℕ
  pub payload : Payload
  pub payload_len : ℕ
  pub sender : ℕ

pub record Response : Type 0 where
  pub mid : ℕ
  pub status : ℕ
  pub fmt : ℕ
  pub payload : Payload
  pub payload_len : ℕ
  pub reciever : ℕ

unfoldable pub set_response : Response → ℕ → ℕ → Payload → ℕ → Response
set_response response status fmt payload payload_len = record response {
  payload = payload;
  payload_len = payload_len;
  status = status;
  fmt = fmt;
}

unfoldable pub make_response_for_request : Request → Response → Response
make_response_for_request request response = record response {
  mid = request.mid;
  reciever = request.sender;
}

-- `request->mid = ++mid` on the static `unsigned int mid`: the new counter and the request.
unfoldable pub init_request : ℕ → Request → List ℕ → ℕ → ℕ → Payload → ℕ → ℕ × Request
init_request mid request url action fmt payload payload_len =
    let next : ℕ = (mid + 1) % 2 ^ 32 in
    (
      next,
      record request {
        url = url;
        action = action;
        fmt = fmt;
        payload = payload;
        payload_len = payload_len;
        mid = next;
      },
    )
