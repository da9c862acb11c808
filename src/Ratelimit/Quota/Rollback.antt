-- ===== src/Ratelimit/Quota/Rollback.antt =====
-- Which calls consume of the quotas.
use go_webhook_delivery.Common.{
  ◌≡◌, ◌⊎◌, inl, inr, Bool-cases, refl, sym, ap, ◌∙◌, arith, Bool, true, false, not, Option, none,
  some, List, [], ◌∷◌, Bytes, ℤ, pos, ltb_ℤ, if◌then◌else◌, Result, ok, err, bind-ok, require-then,
  ok-injective,
}
use go_webhook_delivery.Signing.{Hmac}
use go_webhook_delivery.Auth.{Principal}
use go_webhook_delivery.Tenanttx.{Connection, lost, within, KeptUnseen, within-err, within-ok}
use go_webhook_delivery.Ratelimit.Quota.{
  LimitPolicy, Dimension, QuotaError, invalid, exceeded, unavailable, call_of, dimensions_of,
  Procedure, consumed, consume_all, valid_arguments, consume, Answer, problem, next, answer_of,
  middleware,
}

-- From the first state to the last, every dimension is consumed in order, and each is allowed.
abbrev pub AllowsAll {ℓ} :
    {S : Type ℓ} → Procedure S → Hmac → Bytes → LimitPolicy → List Dimension → S → S → Type ℓ
AllowsAll procedure h pepper p [] st after = st ≡ after
AllowsAll {S = S} procedure h pepper p (d ∷ ds) st after =
    (retry : ℤ) × (mid : S) × (procedure (call_of h pepper p d) st ≡ some ((true, retry), mid))
    × AllowsAll procedure h pepper p ds mid after

module _ {ℓ} {S : Type ℓ} (procedure : Procedure S) (h : Hmac) (pepper : Bytes) where
  consumed-ok :
      (o : Option ((Bool × ℤ) × S)) (st : S)
      → consumed o ≡ ok st
      → (retry : ℤ) × (o ≡ some ((true, retry), st))
  unfolding consumed
  consumed-ok none st e = absurd cc
  consumed-ok (some ((true, retry), mid)) st e =
      (retry, ap (λ x. some ((true, retry), x)) (ok-injective mid st e))
  consumed-ok (some ((false, retry), mid)) st e = absurd cc

  consume_all-AllowsAll :
      (p : LimitPolicy) (ds : List Dimension) (st after : S) (u : Unit {0})
      → consume_all procedure h pepper p ds st ≡ ok (u, after)
      → AllowsAll procedure h pepper p ds st after
  unfolding consume_all
  consume_all-AllowsAll p [] st after u e = ap (λ x. x.1) (ok-injective _ _ e)
  consume_all-AllowsAll p (d ∷ ds) st after u e =
      let (_, e1) = require-then (not (ltb_ℤ d.limit (pos 1))) _ _ _ e in
      let (mid, one, e2) = bind-ok (consumed (procedure (call_of h pepper p d) st)) _ _ e1 in
      let (retry, allowed) = consumed-ok _ mid one in
      (retry, mid, allowed, consume_all-AllowsAll p ds mid after u e2)

  -- A call that succeeds has passed the check of its arguments.
  guarded :
      (b : Bool) (run : Result QuotaError (Unit {0}) × S) (st : S) (u : Unit {0})
      → (if not b then (err invalid, st) else run).0 ≡ ok u
      → (if not b then (err invalid, st) else run) ≡ run
  guarded true run st u e = refl
  guarded false run st u e = absurd cc

  consume-AllowsAll :
      (c : Connection) (principal : Principal) (resource_id : Bytes) (p : LimitPolicy) (st : S)
      (u : Unit {0})
      → (consume procedure h pepper c principal resource_id p st).0 ≡ ok u
      → AllowsAll procedure h pepper p
          (dimensions_of principal resource_id p)
          st
          (consume procedure h pepper c principal resource_id p st).1
  unfolding consume
  consume-AllowsAll c principal resource_id p st u e =
      let run =
        within c unavailable
          (consume_all procedure h pepper p (dimensions_of principal resource_id p)) st in
      let same = guarded (valid_arguments principal p) run st u e in
      rw same (
        consume_all-AllowsAll p (dimensions_of principal resource_id p) st run.1 u
          (within-ok c unavailable u _ st (ap (λ x. x.0) (sym same) ∙ e)))

  -- Consuming of each dimension although the caller sees an error: the commit was lost.
  abbrev pub ConsumesUnseen :
      Connection → Principal → Bytes → LimitPolicy → S → QuotaError → S → Type ℓ
  ConsumesUnseen c principal resource_id p st x after =
      (c.commits ≡ lost)
      × (x ≡ unavailable)
      × AllowsAll procedure h pepper p (dimensions_of principal resource_id p) st after

  kept-ConsumesUnseen :
      (c : Connection) (principal : Principal) (resource_id : Bytes) (p : LimitPolicy)
      (st after : S) (x : QuotaError)
      → KeptUnseen c unavailable x
          (consume_all procedure h pepper p (dimensions_of principal resource_id p))
          st
          after
      → ConsumesUnseen c principal resource_id p st x after
  kept-ConsumesUnseen c principal resource_id p st after x k = (
    k.commit_lost,
    k.is_unavailable,
    consume_all-AllowsAll p (dimensions_of principal resource_id p) st after k.value k.ran,
  )

  consume_fails :
      (c : Connection) (principal : Principal) (resource_id : Bytes) (p : LimitPolicy) (st : S)
      (x : QuotaError)
      → (consume procedure h pepper c principal resource_id p st).0 ≡ err x
      → ((consume procedure h pepper c principal resource_id p st).1 ≡ st)
        ⊎ ConsumesUnseen c principal resource_id p st x
            (consume procedure h pepper c principal resource_id p st).1
  unfolding consume
  consume_fails c principal resource_id p st x e = elim (Bool-cases (valid_arguments principal p)) [
    | inr bad ↦ inl (rw bad refl)
    | inl good ↦
        let run =
          within c unavailable
            (consume_all procedure h pepper p (dimensions_of principal resource_id p)) st in
        let e' : run.0 ≡ err x = ground arith in
        rw good
          (elim (within-err c unavailable x
            (consume_all procedure h pepper p (dimensions_of principal resource_id p)) st e') [
              | inl same ↦ inl same
              | inr kept ↦ inr (kept-ConsumesUnseen c principal resource_id p st run.1 x kept)
            ])
  ]

-- What an answer says of the states before and after: a problem has consumed of none, or is the 503 of
-- a commit that the database has kept although it answered with an error.
abbrev pub Consumes {ℓ} :
    {S : Type ℓ}
    → Procedure S
    → Hmac
    → Bytes
    → Connection
    → LimitPolicy
    → Option Principal
    → Bytes
    → S
    → Answer × S
    → Type ℓ
Consumes procedure h pepper c p who resource_id st (problem status delay, after) =
    (after ≡ st)
    ⊎ ((status ≡ pos 503)
        × (c.commits ≡ lost)
        × (principal : Principal) × (who ≡ some principal)
        × AllowsAll procedure h pepper p (dimensions_of principal resource_id p) st after)
Consumes procedure h pepper c p who resource_id st (next, after) =
    (principal : Principal) × (who ≡ some principal)
    × AllowsAll procedure h pepper p (dimensions_of principal resource_id p) st after

module _ {ℓ} {S : Type ℓ} (procedure : Procedure S) (h : Hmac) (pepper : Bytes) where
  -- An error is answered with a problem, which is a 503 where the commit was lost.
  problem-Consumes :
      (c : Connection) (p : LimitPolicy) (principal : Principal) (resource_id : Bytes)
      (st after : S) (x : QuotaError)
      → (after ≡ st) ⊎ ConsumesUnseen procedure h pepper c principal resource_id p st x after
      → Consumes procedure h pepper c p (some principal) resource_id st (answer_of (err x), after)
  unfolding answer_of
  problem-Consumes c p principal resource_id st after invalid (inl same) = inl same
  problem-Consumes c p principal resource_id st after (exceeded d) (inl same) = inl same
  problem-Consumes c p principal resource_id st after unavailable (inl same) = inl same
  problem-Consumes c p principal resource_id st after invalid (inr (gone, x, all)) = absurd cc
  problem-Consumes c p principal resource_id st after (exceeded d) (inr (gone, x, all)) = absurd cc
  problem-Consumes c p principal resource_id st after unavailable (inr (gone, x, all)) =
      inr (refl, gone, principal, refl, all)

  answer_of-Consumes :
      (c : Connection) (p : LimitPolicy) (principal : Principal) (resource_id : Bytes) (st : S)
      (r : Result QuotaError (Unit {0}) × S)
      → ((u : Unit {0})
          → r.0 ≡ ok u
          → AllowsAll procedure h pepper p (dimensions_of principal resource_id p) st r.1)
      → ((x : QuotaError)
          → r.0 ≡ err x
          → (r.1 ≡ st) ⊎ ConsumesUnseen procedure h pepper c principal resource_id p st x r.1)
      → Consumes procedure h pepper c p (some principal) resource_id st (answer_of r.0, r.1)
  unfolding answer_of
  answer_of-Consumes c p principal resource_id st (ok u, after) passes fails =
      (principal, refl, passes u refl)
  answer_of-Consumes c p principal resource_id st (err x, after) passes fails =
      problem-Consumes c p principal resource_id st after x (fails x refl)

  -- A call that is passed on has a principal, and has consumed of each of its quotas in order, of which
  -- each allowed it. A call that is answered with a problem has consumed of none, unless its commit
  -- was kept by the database and yet answered with an error: then it has consumed of each of its
  -- quotas, and the status is 503.
  pub middleware-Consumes :
      (c : Connection) (p : LimitPolicy) (who : Option Principal) (resource_id : Bytes) (st : S)
      → Consumes procedure h pepper c p who resource_id st
          (middleware procedure h pepper c p who resource_id st)
  unfolding middleware
  middleware-Consumes c p none resource_id st = inl refl
  middleware-Consumes c p (some principal) resource_id st =
      answer_of-Consumes c p principal resource_id st
        (consume procedure h pepper c principal resource_id p st)
        (consume-AllowsAll procedure h pepper c principal resource_id p st)
        (consume_fails procedure h pepper c principal resource_id p st)
