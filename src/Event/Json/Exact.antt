-- ===== src/Event/Json/Exact.antt =====
-- The decoder accepts the tokens of the values whose objects have no key twice, and no others.
use go_webhook_delivery.Common.{
  ℕ, zero, suc, ◌+◌, ◌*◌, ◌≤◌, ◌≡◌, ◌↔◌, refl, sym, ap, ◌∙◌, arith, Bool, true, false, not, List,
  [], ◌∷◌, Bytes, length, ok, ◌>>=◌, bind-ok, require-then,
}
use go_webhook_delivery.Event.Json.{
  text, other, Token, atom, open_brace, close_brace, open_bracket, close_bracket, Json, leaf,
  object, array, Members, end, member, Items, nil, item, key_seen, decode_value, decode_members,
  decode_items,
}

-- The tokens of a value, in front of others.
unfoldable mutual
  pub tokens : Json → List Token → List Token
  tokens (leaf a) rest = atom a ∷ rest
  tokens (object ms) rest = open_brace ∷ member_tokens ms rest
  tokens (array vs) rest = open_bracket ∷ item_tokens vs rest

  pub member_tokens : Members → List Token → List Token
  member_tokens end rest = close_brace ∷ rest
  member_tokens (member key v ms) rest = atom (text key) ∷ tokens v (member_tokens ms rest)

  pub item_tokens : Items → List Token → List Token
  item_tokens nil rest = close_bracket ∷ rest
  item_tokens (item v vs) rest = tokens v (item_tokens vs rest)

-- No object in the value has a key twice.
unfoldable mutual
  pub Unique : Json → Type 0
  Unique (leaf a) = Unit
  Unique (object ms) = UniqueMembers [] ms
  Unique (array vs) = UniqueItems vs

  pub UniqueMembers : List Bytes → Members → Type 0
  UniqueMembers seen end = Unit
  UniqueMembers seen (member key v ms) =
      (key_seen key seen ≡ false) × Unique v × UniqueMembers (key ∷ seen) ms

  pub UniqueItems : Items → Type 0
  UniqueItems nil = Unit
  UniqueItems (item v vs) = Unique v × UniqueItems vs

-- The fuel that a value takes.
mutual
  size : Json → ℕ
  size (leaf a) = 1
  size (object ms) = 1 + size_members ms
  size (array vs) = 1 + size_items vs

  size_members : Members → ℕ
  size_members end = 1
  size_members (member key v ms) = 1 + (size v + size_members ms)

  size_items : Items → ℕ
  size_items nil = 1
  size_items (item v vs) = 1 + (size v + size_items vs)

mutual
  unfolding decode_value decode_members decode_items tokens member_tokens item_tokens Unique
      UniqueMembers UniqueItems size size_members size_items

  decode_value-tokens :
      (fuel : ℕ) (v : Json) (rest : List Token)
      → Unique v
      → size v ≤ fuel
      → decode_value fuel (tokens v rest) ≡ ok (v, rest)
  decode_value-tokens zero (leaf a) rest u h = absurd (omega arith)
  decode_value-tokens zero (object ms) rest u h = absurd (omega arith)
  decode_value-tokens zero (array vs) rest u h = absurd (omega arith)
  decode_value-tokens (suc fuel) (leaf a) rest u h = refl
  decode_value-tokens (suc fuel) (object ms) rest u h =
      rw (decode_members-tokens fuel [] ms rest u (omega arith)) refl
  decode_value-tokens (suc fuel) (array vs) rest u h =
      rw (decode_items-tokens fuel vs rest u (omega arith)) refl

  decode_members-tokens :
      (fuel : ℕ) (seen : List Bytes) (ms : Members) (rest : List Token)
      → UniqueMembers seen ms
      → size_members ms ≤ fuel
      → decode_members fuel seen (member_tokens ms rest) ≡ ok (ms, rest)
  decode_members-tokens zero seen end rest u h = absurd (omega arith)
  decode_members-tokens zero seen (member key v ms) rest u h = absurd (omega arith)
  decode_members-tokens (suc fuel) seen end rest u h = refl
  decode_members-tokens (suc fuel) seen (member key v ms) rest u h =
      rw
        (
          u.0,
          decode_value-tokens fuel v (member_tokens ms rest) u.1 (omega arith),
          decode_members-tokens fuel (key ∷ seen) ms rest u.2 (omega arith),
        )
        refl

  decode_items-tokens :
      (fuel : ℕ) (vs : Items) (rest : List Token)
      → UniqueItems vs
      → size_items vs ≤ fuel
      → decode_items fuel (item_tokens vs rest) ≡ ok (vs, rest)
  decode_items-tokens zero nil rest u h = absurd (omega arith)
  decode_items-tokens zero (item v vs) rest u h = absurd (omega arith)
  decode_items-tokens (suc fuel) nil rest u h = refl
  decode_items-tokens (suc fuel) (item (leaf a) vs) rest u h =
      rw
        (
          decode_value-tokens fuel (leaf a) (item_tokens vs rest) u.0 (omega arith),
          decode_items-tokens fuel vs rest u.1 (omega arith),
        )
        refl
  decode_items-tokens (suc fuel) (item (object ms) vs) rest u h =
      rw
        (
          decode_value-tokens fuel (object ms) (item_tokens vs rest) u.0 (omega arith),
          decode_items-tokens fuel vs rest u.1 (omega arith),
        )
        refl
  decode_items-tokens (suc fuel) (item (array ws) vs) rest u h =
      rw
        (
          decode_value-tokens fuel (array ws) (item_tokens vs rest) u.0 (omega arith),
          decode_items-tokens fuel vs rest u.1 (omega arith),
        )
        refl

mutual
  unfolding tokens member_tokens item_tokens size size_members size_items

  size-le :
      (v : Json) (rest : List Token) → size v + 1 + 2 * length rest ≤ 2 * length (tokens v rest)
  size-le (leaf a) rest = omega arith
  size-le (object ms) rest = omega (arith, size_members-le ms rest)
  size-le (array vs) rest = omega (arith, size_items-le vs rest)

  size_members-le :
      (ms : Members) (rest : List Token)
      → size_members ms + 2 * length rest ≤ 2 * length (member_tokens ms rest)
  size_members-le end rest = omega arith
  size_members-le (member key v ms) rest =
      omega (arith, size-le v (member_tokens ms rest), size_members-le ms rest)

  size_items-le :
      (vs : Items) (rest : List Token)
      → size_items vs + 2 * length rest ≤ 2 * length (item_tokens vs rest)
  size_items-le nil rest = omega arith
  size_items-le (item v vs) rest =
      omega (arith, size-le v (item_tokens vs rest), size_items-le vs rest)

not-true : (b : Bool) → not b ≡ true → b ≡ false
not-true b h = ground arith

-- A decoded value and what is left behind it.
abbrev pub Decoded : List Token → Json → List Token → Type 0
Decoded ts v rest = (ts ≡ tokens v rest) × Unique v

abbrev DecodedMembers : List Bytes → List Token → Members → List Token → Type 0
DecodedMembers seen ts ms rest = (ts ≡ member_tokens ms rest) × UniqueMembers seen ms

abbrev DecodedItems : List Token → Items → List Token → Type 0
DecodedItems ts vs rest = (ts ≡ item_tokens vs rest) × UniqueItems vs

-- An element and those behind it.
Decoded-item :
    (fuel : ℕ) (ts : List Token) (vs : Items) (rest : List Token)
    → ((w : Json) (r : List Token) → decode_value fuel ts ≡ ok (w, r) → Decoded ts w r)
    → ((ts' : List Token) (ws : Items) (r : List Token)
        → decode_items fuel ts' ≡ ok (ws, r)
        → DecodedItems ts' ws r)
    → ◌>>=◌ {B = Items × List Token}
        (decode_value fuel ts)
        (λ p. ◌>>=◌ {B = Items × List Token} (decode_items fuel p.1) λ q. ok (item p.0 q.0, q.1))
      ≡ ok (vs, rest)
    → DecodedItems ts vs rest
unfolding item_tokens UniqueItems
Decoded-item fuel ts vs rest decoded decoded_rest h =
    let (p, e, h1) = bind-ok (decode_value fuel ts) _ _ h in
    let (q, e', h2) = bind-ok (decode_items fuel p.1) _ _ h1 in
    let (es, u) = decoded p.0 p.1 e in
    let (es', u') = decoded_rest p.1 q.0 q.1 e' in
    let same : item p.0 q.0 ≡ vs = cc in
    let left : q.1 ≡ rest = cc in rw (sym same, sym left) (es ∙ ap (tokens p.0) es', (u, u'))

mutual
  unfolding decode_value decode_members decode_items tokens member_tokens item_tokens Unique
      UniqueMembers UniqueItems

  decode_value-Decoded :
      (fuel : ℕ) (ts : List Token) (v : Json) (rest : List Token)
      → decode_value fuel ts ≡ ok (v, rest)
      → Decoded ts v rest
  decode_value-Decoded zero ts v rest h = absurd cc
  decode_value-Decoded (suc fuel) [] v rest h = absurd cc
  decode_value-Decoded (suc fuel) (atom a ∷ ts) v rest h =
      let same : leaf a ≡ v = cc in let left : ts ≡ rest = cc in rw (sym same, sym left) (refl, tt)
  decode_value-Decoded (suc fuel) (open_brace ∷ ts) v rest h =
      let (p, e, h') = bind-ok (decode_members fuel [] ts) _ _ h in
      let (es, u) = decode_members-Decoded fuel [] ts p.0 p.1 e in
      let same : object p.0 ≡ v = cc in
      let left : p.1 ≡ rest = cc in rw (sym same, sym left) (ap (◌∷◌ open_brace) es, u)
  decode_value-Decoded (suc fuel) (open_bracket ∷ ts) v rest h =
      let (p, e, h') = bind-ok (decode_items fuel ts) _ _ h in
      let (es, u) = decode_items-Decoded fuel ts p.0 p.1 e in
      let same : array p.0 ≡ v = cc in
      let left : p.1 ≡ rest = cc in rw (sym same, sym left) (ap (◌∷◌ open_bracket) es, u)
  decode_value-Decoded (suc fuel) (close_brace ∷ ts) v rest h = absurd cc
  decode_value-Decoded (suc fuel) (close_bracket ∷ ts) v rest h = absurd cc

  decode_members-Decoded :
      (fuel : ℕ) (seen : List Bytes) (ts : List Token) (ms : Members) (rest : List Token)
      → decode_members fuel seen ts ≡ ok (ms, rest)
      → DecodedMembers seen ts ms rest
  decode_members-Decoded zero seen ts ms rest h = absurd cc
  decode_members-Decoded (suc fuel) seen [] ms rest h = absurd cc
  decode_members-Decoded (suc fuel) seen (close_brace ∷ ts) ms rest h =
      let same : end ≡ ms = cc in let left : ts ≡ rest = cc in rw (sym same, sym left) (refl, tt)
  decode_members-Decoded (suc fuel) seen (atom (text key) ∷ ts) ms rest h =
      let (fresh, h1) = require-then (not (key_seen key seen)) _ _ _ h in
      let (p, e, h2) = bind-ok (decode_value fuel ts) _ _ h1 in
      let (q, e', h3) = bind-ok (decode_members fuel (key ∷ seen) p.1) _ _ h2 in
      let (es, u) = decode_value-Decoded fuel ts p.0 p.1 e in
      let (es', u') = decode_members-Decoded fuel (key ∷ seen) p.1 q.0 q.1 e' in
      let same : member key p.0 q.0 ≡ ms = cc in
      let left : q.1 ≡ rest = cc in
      rw (sym same, sym left)
        (ap (◌∷◌ (atom (text key))) (es ∙ ap (tokens p.0) es'), (not-true _ fresh, u, u'))
  decode_members-Decoded (suc fuel) seen (atom (other n) ∷ ts) ms rest h = absurd cc
  decode_members-Decoded (suc fuel) seen (open_brace ∷ ts) ms rest h = absurd cc
  decode_members-Decoded (suc fuel) seen (open_bracket ∷ ts) ms rest h = absurd cc
  decode_members-Decoded (suc fuel) seen (close_bracket ∷ ts) ms rest h = absurd cc

  decode_items-Decoded :
      (fuel : ℕ) (ts : List Token) (vs : Items) (rest : List Token)
      → decode_items fuel ts ≡ ok (vs, rest)
      → DecodedItems ts vs rest
  decode_items-Decoded zero ts vs rest h = absurd cc
  decode_items-Decoded (suc fuel) [] vs rest h = absurd cc
  decode_items-Decoded (suc fuel) (close_bracket ∷ ts) vs rest h =
      let same : nil ≡ vs = cc in let left : ts ≡ rest = cc in rw (sym same, sym left) (refl, tt)
  decode_items-Decoded (suc fuel) (close_brace ∷ ts) vs rest h = absurd cc
  decode_items-Decoded (suc fuel) (atom a ∷ ts) vs rest h =
      Decoded-item fuel (atom a ∷ ts) vs rest (decode_value-Decoded fuel (atom a ∷ ts))
        (decode_items-Decoded fuel) h
  decode_items-Decoded (suc fuel) (open_brace ∷ ts) vs rest h =
      Decoded-item fuel (open_brace ∷ ts) vs rest (decode_value-Decoded fuel (open_brace ∷ ts))
        (decode_items-Decoded fuel) h
  decode_items-Decoded (suc fuel) (open_bracket ∷ ts) vs rest h =
      Decoded-item fuel (open_bracket ∷ ts) vs rest (decode_value-Decoded fuel (open_bracket ∷ ts))
        (decode_items-Decoded fuel) h

-- With twice as much fuel as there are tokens, the decoder returns a value and what is left exactly if
-- the tokens are those of the value in front of what is left, and no object in the value has a key
-- twice.
pub decode_value_iff :
    (ts : List Token) (v : Json) (rest : List Token)
    → (decode_value (2 * length ts) ts ≡ ok (v, rest)) ↔ Decoded ts v rest
decode_value_iff ts v rest = (
  decode_value-Decoded (2 * length ts) ts v rest,
  λ d.
      rw d.0 (
        decode_value-tokens (2 * length (tokens v rest)) v rest d.1
          (omega (arith, size-le v rest))),
)
