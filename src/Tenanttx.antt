-- ===== src/Tenanttx.antt =====
-- internal/platform/tenanttx/tenanttx.go: a transaction of one workspace. The state of the database is
-- passed on, and a rollback gives back the state before. An error of the commit does not tell whether
-- the database has kept the transaction, so both are outcomes of the call.
use go_webhook_delivery.Common.{
  ◌≡◌, ◌⊎◌, refl, ap, Bool, true, inl, inr, Result, ok, err, arith, Bool-cases, if◌then◌else◌, not,
  ok-injective,
}

-- How `tx.Commit` ends: without an error, with one and nothing kept, or with one after the database has
-- kept the transaction.
pub data CommitOutcome : Type 0 where
  committed refused lost : CommitOutcome

-- Which of the calls to the database succeed: the begin, the setting of the workspace, the commit.
pub record Connection : Type 0 where
  pub begins : Bool
  pub sets_workspace : Bool
  pub commits : CommitOutcome

module _ {ℓ κ μ} {S : Type ℓ} {E : Type κ} {A : Type μ} where
  unfoldable pub commit : CommitOutcome → E → S → Result E (A × S) → Result E A × S
  commit c unavailable before (err e) = (err e, before)
  commit committed unavailable before (ok (a, after)) = (ok a, after)
  commit refused unavailable before (ok (a, after)) = (err unavailable, before)
  commit lost unavailable before (ok (a, after)) = (err unavailable, after)

  -- `Within`. `unavailable` is the error of a call to the database that fails.
  unfoldable pub within : Connection → E → (S → Result E (A × S)) → S → Result E A × S
  unfolding commit
  within c unavailable run s =
      if not c.begins
      then (err unavailable, s)
      else if not c.sets_workspace
      then (err unavailable, s)
      else commit c.commits unavailable s (run s)

  -- The transaction has run to its end and is kept, but its commit has answered with an error.
  pub record KeptUnseen (c : Connection) (unavailable e : E) (run : S → Result E (A × S))
      (s after : S) : Type (ℓ ⊔ κ ⊔ μ) where
    pub commit_lost : c.commits ≡ lost
    pub is_unavailable : e ≡ unavailable
    pub value : A
    pub ran : run s ≡ ok (value, after)

  commit-err :
      (c : CommitOutcome) (unavailable e : E) (s : S) (r : Result E (A × S))
      → (commit c unavailable s r).0 ≡ err e
      → ((commit c unavailable s r).1 ≡ s)
        ⊎ ((c ≡ lost) × (e ≡ unavailable) × (a : A) × (r ≡ ok (a, (commit c unavailable s r).1)))
  unfolding commit
  commit-err c unavailable e s (err x) h = inl refl
  commit-err committed unavailable e s (ok (a, after)) h = absurd cc
  commit-err refused unavailable e s (ok (a, after)) h = inl refl
  commit-err lost unavailable e s (ok (a, after)) h = inr (refl, cc, a, refl)

  -- A transaction that returns an error leaves the database as it was, unless its commit was lost.
  pub within-err :
      (c : Connection) (unavailable e : E) (run : S → Result E (A × S)) (s : S)
      → (within c unavailable run s).0 ≡ err e
      → ((within c unavailable run s).1 ≡ s)
        ⊎ KeptUnseen c unavailable e run s (within c unavailable run s).1
  unfolding within
  within-err c unavailable e run s h = elim (Bool-cases c.begins) [
    | inr fails ↦ inl (rw fails refl)
    | inl begins ↦ elim (Bool-cases c.sets_workspace) [
      | inr fails ↦ inl (rw (begins, fails) refl)
      | inl sets ↦
          let h' : (commit c.commits unavailable s (run s)).0 ≡ err e = ground arith in
          rw (begins, sets)
            (elim (commit-err c.commits unavailable e s (run s) h') [
              | inl same ↦ inl same
              | inr k ↦
                  inr (record { commit_lost = k.0; is_unavailable = k.1; value = k.2; ran = k.3 })
            ])
    ]
  ]

  commit-ok :
      (c : CommitOutcome) (unavailable : E) (a : A) (s : S) (r : Result E (A × S))
      → (commit c unavailable s r).0 ≡ ok a
      → r ≡ ok (a, (commit c unavailable s r).1)
  unfolding commit
  commit-ok c unavailable a s (err x) h = absurd cc
  commit-ok committed unavailable a s (ok (b, after)) h =
      ap (λ x. ok (x, after)) (ok-injective b a h)
  commit-ok refused unavailable a s (ok (b, after)) h = absurd cc
  commit-ok lost unavailable a s (ok (b, after)) h = absurd cc

  -- A transaction that returns a value has run its function, on the state at its beginning.
  pub within-ok :
      (c : Connection) (unavailable : E) (a : A) (run : S → Result E (A × S)) (s : S)
      → (within c unavailable run s).0 ≡ ok a
      → run s ≡ ok (a, (within c unavailable run s).1)
  unfolding within
  within-ok c unavailable a run s h = ground (arith, commit-ok c.commits unavailable a s (run s))

  -- On a connection that works the function's value is returned and its state kept.
  pub within-works :
      (unavailable : E) (a : A) (after : S) (run : S → Result E (A × S)) (s : S)
      → run s ≡ ok (a, after)
      → within
          (record { begins = true; sets_workspace = true; commits = committed })
          unavailable
          run
          s
        ≡ (ok a, after)
  unfolding within commit
  within-works unavailable a after run s h = rw h refl
