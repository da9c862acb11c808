-- ===== src/Event/Json.antt =====
-- `decodeUnique` of internal/event/event.go, on the tokens that Go's JSON decoder gives. It refuses an
-- object with a key that comes twice.
pub mod Exact
use go_webhook_delivery.Common.{
  ℕ, zero, suc, ◌+◌, Bool, true, false, ◌||◌, List, [], ◌∷◌, ◌++◌, Bytes, bytes_eq, not, Result, ok,
  err, ◌>>=◌, ◌>>◌, require,
}

-- A token that is no delimiter: a string, or a number, a Boolean or null.
pub data Atom : Type 0 where
  text : Bytes → Atom
  other : Bytes → Atom

pub data Token : Type 0 where
  atom : Atom → Token
  open_brace close_brace open_bracket close_bracket : Token

mutual
  pub data Json : Type 0 where
    leaf : Atom → Json
    object : Members → Json
    array : Items → Json

  -- The members of an object, in their order in the text.
  pub data Members : Type 0 where
    end : Members
    member : Bytes → Json → Members → Members

  pub data Items : Type 0 where
    nil : Items
    item : Json → Items → Items

pub data EventError : Type 0 where
  invalid : EventError

unfoldable pub key_seen : Bytes → List Bytes → Bool
key_seen key [] = false
key_seen key (k ∷ ks) = bytes_eq k key || key_seen key ks

-- The decoder, its loop over the members of an object with the keys so far, and its loop over the
-- elements of an array, on fuel: a value and the tokens behind it.
unfoldable mutual
  unfolding key_seen

  pub decode_value : ℕ → List Token → Result EventError (Json × List Token)
  decode_value zero ts = err invalid
  decode_value (suc fuel) [] = err invalid
  decode_value (suc fuel) (atom a ∷ ts) = ok (leaf a, ts)
  decode_value (suc fuel) (open_brace ∷ ts) = do
    (ms, rest) ← decode_members fuel [] ts
    ok (object ms, rest)
  decode_value (suc fuel) (open_bracket ∷ ts) = do
    (vs, rest) ← decode_items fuel ts
    ok (array vs, rest)
  decode_value (suc fuel) (close_brace ∷ ts) = err invalid
  decode_value (suc fuel) (close_bracket ∷ ts) = err invalid

  pub decode_members : ℕ → List Bytes → List Token → Result EventError (Members × List Token)
  decode_members zero seen ts = err invalid
  decode_members (suc fuel) seen [] = err invalid
  decode_members (suc fuel) seen (close_brace ∷ ts) = ok (end, ts)
  decode_members (suc fuel) seen (atom (text key) ∷ ts) = do
    require (not (key_seen key seen)) invalid
    (v, ts') ← decode_value fuel ts
    (ms, rest) ← decode_members fuel (key ∷ seen) ts'
    ok (member key v ms, rest)
  decode_members (suc fuel) seen (atom (other n) ∷ ts) = err invalid
  decode_members (suc fuel) seen (open_brace ∷ ts) = err invalid
  decode_members (suc fuel) seen (open_bracket ∷ ts) = err invalid
  decode_members (suc fuel) seen (close_bracket ∷ ts) = err invalid

  pub decode_items : ℕ → List Token → Result EventError (Items × List Token)
  decode_items zero ts = err invalid
  decode_items (suc fuel) [] = err invalid
  decode_items (suc fuel) (close_bracket ∷ ts) = ok (nil, ts)
  decode_items (suc fuel) (close_brace ∷ ts) = err invalid
  decode_items (suc fuel) (t ∷ ts) = do
    (v, ts') ← decode_value fuel (t ∷ ts)
    (vs, rest) ← decode_items fuel ts'
    ok (item v vs, rest)
