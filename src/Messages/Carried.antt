-- ===== src/Messages/Carried.antt =====
-- Which values the messages that were sent carry to which address.
use anna.Prelude.{
  ◌==◌, ◌≡◌, refl, ap, ◌∙◌, list_eq, nat_eq, Bool, true, false, ◌&&◌, ◌||◌, List, [], ◌∷◌, ◌++◌,
  arith,
}
use anna.Text.{Text}
use anna.Messages.{KeyTuple, Message, request, Net, send}

-- A tuple with the key and the payload.
unfoldable pub has_tuple : Text → Text → List KeyTuple → Bool
has_tuple key payload [] = false
has_tuple key payload (tuple ∷ tuples) =
    (tuple.key == key && tuple.payload == payload) || has_tuple key payload tuples

abbrev pub in_message : Text → Text → Message → Bool
in_message key payload (request r) = has_tuple key payload r.tuples
in_message key payload m = false

-- One of the messages goes to the address, and is a request with such a tuple.
unfoldable pub carries : Text → Text → Text → List (Text × Message) → Bool
carries address key payload [] = false
carries address key payload ((a, m) ∷ sent) =
    (a == address && in_message key payload m) || carries address key payload sent

pub has_tuple-append :
    (key payload : Text) (xs ys : List KeyTuple)
    → has_tuple key payload (xs ++ ys) ≡ (has_tuple key payload xs || has_tuple key payload ys)
unfolding has_tuple
has_tuple-append key payload [] ys = refl
has_tuple-append key payload (x ∷ xs) ys = ground (arith, has_tuple-append key payload xs ys)

pub carries-append :
    (address key payload : Text) (xs ys : List (Text × Message))
    → carries address key payload (xs ++ ys)
      ≡ (carries address key payload xs || carries address key payload ys)
unfolding carries
carries-append address key payload [] ys = refl
carries-append address key payload ((a, m) ∷ xs) ys =
    ground (arith, carries-append address key payload xs ys)

pub append_assoc {ℓ} : {A : Type ℓ} (xs ys zs : List A) → (xs ++ ys) ++ zs ≡ xs ++ (ys ++ zs)
append_assoc [] ys zs = refl
append_assoc (x ∷ xs) ys zs = ap (λ t. x ∷ t) (append_assoc xs ys zs)

pub append_nil {ℓ} : {A : Type ℓ} (xs : List A) → xs ++ [] ≡ xs
append_nil [] = refl
append_nil (x ∷ xs) = ap (λ t. x ∷ t) (append_nil xs)

-- Messages were sent, and none taken back.
pub record Extends (net net' : Net) : Type 0 where
  pub more : List (Text × Message)
  pub sent : net'.sent ≡ net.sent ++ more

-- Among the messages sent from `net` to `net'` there is one to the address, which puts the payload
-- under the key.
pub record Delivers (net net' : Net) (address key payload : Text) : Type 0 where
  pub more : List (Text × Message)
  pub sent : net'.sent ≡ net.sent ++ more
  pub carried : carries address key payload more ≡ true

pub Extends-refl : (net : Net) → Extends net net
Extends-refl net = record { more = []; sent = ap (λ s. s) (rw (append_nil net.sent) refl) }

pub send-Extends :
    (address : Text) (message : Message) (net : Net) → Extends net (send address message net)
send-Extends address message net = record { more = (address, message) ∷ []; sent = refl }

pub Extends-trans : (a b c : Net) → Extends a b → Extends b c → Extends a c
Extends-trans a b c h k = record {
  more = h.more ++ k.more;
  sent = k.sent ∙ ap (λ t. t ++ k.more) h.sent ∙ append_assoc a.sent h.more k.more;
}

pub Extends-Delivers :
    (a b c : Net) (address key payload : Text)
    → Extends a b
    → Delivers b c address key payload
    → Delivers a c address key payload
Extends-Delivers a b c address key payload h k = record {
  more = h.more ++ k.more;
  sent = k.sent ∙ ap (λ t. t ++ k.more) h.sent ∙ append_assoc a.sent h.more k.more;
  carried = ground (arith, carries-append address key payload h.more k.more, k.carried);
}
