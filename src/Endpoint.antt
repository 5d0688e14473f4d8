-- ===== src/Endpoint.antt =====
-- src/endpoint.rs: the compiled-in pool endpoint and the ordered endpoint list with its failover
-- and failback. Times are Unix milliseconds, handed in as in the source.
pub mod Rotation
pub mod Failback
use Prim.Native.Nat.{bit_xor}
use csd_mining_pool_public.Prelude.{
  ℕ, ◌+◌, ◌-◌, ◌%◌, Bool, true, false, List, [], ◌∷◌, Option, map, Text, length, get_elem?, ltb,
  leb, ◌==◌, if◌then◌else◌,
}

abbrev pub xor_key : ℕ
xor_key = 0x5a

abbrev pub scrambled_endpoint : List ℕ
scrambled_endpoint =
    0x2a ∷ 0x35 ∷ 0x35 ∷ 0x36 ∷ 0x74 ∷ 0x23 ∷ 0x3b ∷ 0x37 ∷ 0x3b ∷ 0x3e ∷ 0x2f ∷ 0x35 ∷ 0x74 ∷ 0x34
    ∷ 0x35 ∷ 0x60 ∷ 0x69 ∷ 0x69 ∷ 0x69 ∷ 0x69 ∷ []

-- The decoded bytes; they are ASCII, so `String::from_utf8` keeps them.
unfoldable pub pool_endpoint : Text
pool_endpoint = map (λ b. bit_xor b xor_key) scrambled_endpoint

pub record EndpointList : Type 0 where
  pub all : List Text
  pub current : ℕ
  pub last_failback_ms : ℕ

unfoldable pub new : List Text → EndpointList
new all = record { all = all; current = 0; last_failback_ms = 0 }

-- `&self.all[self.current]`; `none` is the panic of an index out of bounds.
unfoldable pub current : EndpointList → Option Text
current e = get_elem? e.all e.current

unfoldable pub is_primary : EndpointList → Bool
is_primary e = e.current == 0

-- The source also returns the new selection, which is `current` of the result.
unfoldable pub advance : EndpointList → EndpointList
advance e =
    if ltb 1 (length e.all) then record e { current = (e.current + 1) % length e.all } else e

unfoldable pub maybe_failback : EndpointList → ℕ → ℕ → EndpointList × Bool
maybe_failback e now_ms interval_ms =
    if e.current == 0
    then (record e { last_failback_ms = now_ms }, false)
    else if e.last_failback_ms == 0
    then (record e { last_failback_ms = now_ms }, false)
    else if leb interval_ms (now_ms - e.last_failback_ms)
    then (record e { current = 0; last_failback_ms = now_ms }, true)
    else (e, false)
