-- ===== src/Event/Publish/Accepted.antt =====
-- Which bodies are events.
use go_webhook_delivery.Common.{
  ◌*◌, ◌≡◌, ◌↔◌, refl, sym, ap, ◌∙◌, arith, Bool, true, false, ◌&&◌, Option, none, some, List, [],
  ◌∷◌, Bytes, bytes, length, leb, ok, map_err, map_err-ok, bind-ok, require-then, require-ok,
}
use go_webhook_delivery.Endpoint.{IsEventType, matches_event_type}
use go_webhook_delivery.Event.Json.{
  text, other, Token, Json, leaf, object, array, Members, decode_value,
}
use go_webhook_delivery.Event.Json.Exact.{tokens, Unique, decode_value_iff}
use go_webhook_delivery.Event.Store.{invalid}
use go_webhook_delivery.Event.Publish.{
  Parsers, find_member, type_of, has_member, members_of, canonical_of, end_of_text,
  validate_and_canonicalize,
}

-- The text is one JSON object, none of its objects has a key twice, its type is an event type, it has
-- data, and it has a canonical form.
pub record IsEvent (p : Parsers) (raw event_type canonical : Bytes) : Type 0 where
  pub members : Members
  pub whole : p.tokens raw ≡ (tokens (object members) [], true)
  pub unique : Unique (object members)
  pub has_type : find_member (bytes "type") members ≡ some (leaf (text event_type))
  pub is_event_type : IsEventType event_type
  pub has_data : has_member (find_member (bytes "data") members) ≡ true
  pub has_canonical : p.canonicalize raw ≡ some canonical

type_of-ok :
    (o : Option Json) (t : Bytes) → type_of o ≡ ok t → (o ≡ some (leaf (text t))) × IsEventType t
unfolding type_of
type_of-ok none t h = absurd cc
type_of-ok (some (leaf (text u))) t h =
    let (passes, same) = require-ok (leb (length u) 128 && matches_event_type u) _ _ _ h in
    rw (sym same) (refl, ground arith)
type_of-ok (some (leaf (other n))) t h = absurd cc
type_of-ok (some (object ms)) t h = absurd cc
type_of-ok (some (array vs)) t h = absurd cc

members_of-ok : (v : Json) (ms : Members) → members_of v ≡ ok ms → v ≡ object ms
unfolding members_of
members_of-ok (leaf a) ms h = absurd cc
members_of-ok (object ns) ms h = let same : ns ≡ ms = cc in rw same refl
members_of-ok (array vs) ms h = absurd cc

canonical_of-ok : (o : Option Bytes) (c : Bytes) → canonical_of o ≡ ok c → o ≡ some c
unfolding canonical_of
canonical_of-ok none c h = absurd cc
canonical_of-ok (some d) c h = let same : d ≡ c = cc in rw same refl

end_of_text-true : (r : List Token × Bool) → end_of_text r ≡ true → r ≡ ([], true)
unfolding end_of_text
end_of_text-true ([], true) h = refl
end_of_text-true ([], false) h = absurd cc
end_of_text-true (t ∷ ts, b) h = absurd cc

validate_and_canonicalize-IsEvent :
    (p : Parsers) (raw event_type canonical : Bytes)
    → validate_and_canonicalize p raw ≡ ok (event_type, canonical)
    → IsEvent p raw event_type canonical
unfolding validate_and_canonicalize
validate_and_canonicalize-IsEvent p raw event_type canonical h =
    let ts = (p.tokens raw).0 in
    let (x, decoded, h1) =
      bind-ok (map_err (λ _. invalid) (decode_value (2 * length ts) ts)) _ _ h in
    let (ends, h2) = require-then (end_of_text (x.1, (p.tokens raw).1)) _ _ _ h1 in
    let (ms, is_object, h3) = bind-ok (members_of x.0) _ _ h2 in
    let (t, typed, h4) = bind-ok (type_of (find_member (bytes "type") ms)) _ _ h3 in
    let (with_data, h5) = require-then (has_member (find_member (bytes "data") ms)) _ _ _ h4 in
    let (c, canonized, h6) = bind-ok (canonical_of (p.canonicalize raw)) _ _ h5 in
    let exact = (decode_value_iff ts x.0 x.1).0 (map_err-ok _ _ x decoded) in
    let ended = end_of_text-true (x.1, (p.tokens raw).1) ends in
    let object_same = members_of-ok x.0 ms is_object in
    let type_same : t ≡ event_type = cc in
    let canonical_same : c ≡ canonical = cc in
    let text_same : ts ≡ tokens (object ms) [] =
      exact.0 ∙ (ap (tokens x.0) (ap (λ r. r.0) ended) ∙ ap (λ v. tokens v []) object_same) in
    let typed' = type_of-ok (find_member (bytes "type") ms) t typed in
    record {
      members = ms;
      whole = λ i. (text_same i, (ended i).1);
      unique = rw (sym object_same) exact.1;
      has_type = rw (sym type_same) typed'.0;
      is_event_type = rw (sym type_same) typed'.1;
      has_data = with_data;
      has_canonical = rw (sym canonical_same) (canonical_of-ok (p.canonicalize raw) c canonized);
    }

type_of-IsEventType : (t : Bytes) → IsEventType t → type_of (some (leaf (text t))) ≡ ok t
unfolding type_of
type_of-IsEventType t h = ground arith

validate_and_canonicalize-accepts :
    (p : Parsers) (raw event_type canonical : Bytes)
    → IsEvent p raw event_type canonical
    → validate_and_canonicalize p raw ≡ ok (event_type, canonical)
unfolding validate_and_canonicalize end_of_text members_of canonical_of
validate_and_canonicalize-accepts p raw event_type canonical e =
    let ts = tokens (object e.members) [] in
    let decoded = (decode_value_iff ts (object e.members) []).1 (refl, e.unique) in
    rw
      (
        e.whole,
        decoded,
        e.has_type,
        type_of-IsEventType event_type e.is_event_type,
        e.has_data,
        e.has_canonical,
      )
      refl

-- A body is accepted with an event type and a canonical text exactly if it is one JSON object without
-- a key that comes twice in an object, whose type is a text of at most 128 bytes as the pattern wants,
-- which has data, and whose canonical form is that text.
pub validate_and_canonicalize_iff :
    (p : Parsers) (raw event_type canonical : Bytes)
    → (validate_and_canonicalize p raw ≡ ok (event_type, canonical))
      ↔ IsEvent p raw event_type canonical
validate_and_canonicalize_iff p raw event_type canonical = (
  validate_and_canonicalize-IsEvent p raw event_type canonical,
  validate_and_canonicalize-accepts p raw event_type canonical,
)
