-- ===== src/Examples.antt =====
-- Inputs on which the theorems are tried, and the theorems at them, by the part of the stack.
pub mod Options
pub mod Wire
pub mod Messages
pub mod Types
pub mod Interactions
pub mod Sending
pub mod Machines
use lobaro_coap.Common.{
  ℕ, zero, suc, ◌+◌, ◌≡◌, refl, arith, Bool, true, false, List, [], ◌∷◌, ◌++◌, length,
  length-append, get_or,
}
use mathlib.Core.Path.{subst}
use mathlib.Core.List.{append_assoc}
use lobaro_coap.Platform.{Platform, Mem}
use lobaro_coap.OptionList.{CoapOption, new_option}
use lobaro_coap.OptionWire.{Memory}
use lobaro_coap.OptionWire.RoundTrip.Fields.{Holds}

-- A platform that grants every call of `malloc`, and one that refuses every call.
abbrev pub granting : Platform
granting = record { grants = λ k n. true; sizeof_option = 16; sizeof_message = 64 }

abbrev pub refusing : Platform
refusing = record { grants = λ k n. false; sizeof_option = 16; sizeof_message = 64 }

abbrev pub fresh_mem : Mem
fresh_mem = record { mallocs = 0; live = 0 }

-- Uri-Path "ab" and Uri-Query "x=1".
abbrev pub path_ab : CoapOption
path_ab = new_option 11 (b'a' ∷ b'b' ∷ [])

abbrev pub query_x : CoapOption
query_x = new_option 15 (b'x' ∷ b'=' ∷ b'1' ∷ [])

abbrev pub two_options : List CoapOption
two_options = path_ab ∷ query_x ∷ []

-- A memory that begins with the bytes and holds the number `rest` behind them.
abbrev pub memory_of : List ℕ → ℕ → Memory
memory_of bs rest = λ i. get_or bs i rest

get_or-append :
    (front : List ℕ) (b : ℕ) (back : List ℕ) (rest : ℕ)
    → get_or (front ++ (b ∷ back)) (length front) rest ≡ b
get_or-append [] b back rest = refl
get_or-append (x ∷ front) b back rest = get_or-append front b back rest

Holds-behind :
    (back front : List ℕ) (rest : ℕ) → Holds (memory_of (front ++ back) rest) (length front) back
Holds-behind [] front rest = tt
Holds-behind (b ∷ back) front rest = (
  get_or-append front b back rest,
  subst (λ k. Holds (memory_of (front ++ (b ∷ back)) rest) k back)
      (omega (arith, length-append front (b ∷ [])))
      (subst (λ bs. Holds (memory_of bs rest) (length (front ++ (b ∷ []))) back)
        (append_assoc front (b ∷ []) back) (Holds-behind back (front ++ (b ∷ [])) rest)),
)

pub Holds-memory_of : (bs : List ℕ) (rest : ℕ) → Holds (memory_of bs rest) 0 bs
Holds-memory_of bs rest = Holds-behind bs [] rest
