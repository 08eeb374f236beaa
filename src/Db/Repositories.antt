-- ===== src/Db/Repositories.antt =====
-- `createDrizzlePlatformRepositories` and `workspaceAdminTransactions` of src/db/repositories.ts.
use swooshz_platform.Base.{
  ℕ, zero, suc, ◌+◌, ◌≤◌, ◌<◌, ◌≡◌, ◌≢◌, ◌⊎◌, inl, inr, refl, sym, ap, ◌∙◌, some, Bool-cases, ltb,
  arith,
}
use mathlib.Core.Path.{subst}
use swooshz_platform.Errors.{plain, serialization_failure}
use swooshz_platform.Io.{Outcome, ok, thrown, Io}
use swooshz_platform.Ports.{PlatformRepositories, WorkspaceAdminTransactionRepository}
use swooshz_platform.Driver.{Driver}
use swooshz_platform.Db.Statements.{Database}
use swooshz_platform.Db.Identity.{drizzle_users, drizzle_provider_identities, drizzle_sessions}
use swooshz_platform.Db.Workspaces.{
  drizzle_workspaces, drizzle_memberships, drizzle_membership_approvals,
}
use swooshz_platform.Db.Apps.{drizzle_apps, drizzle_app_entitlements, drizzle_audit_events}

abbrev pub unless_serialization_failure : {S A : Type 0} → Outcome A × S → Io S A → Outcome A × S
unless_serialization_failure (thrown serialization_failure, s) again = again s
unless_serialization_failure (r, s) again = (r, s)

-- The loop of `run` from the attempt `attempt`, with `n` more attempts after it: a serialization
-- failure is tried again, any other error and the last failure are thrown.
unfoldable pub run_attempts : {S A : Type 0} → Driver → ℕ → ℕ → Io S A → Io S A
run_attempts d zero attempt m s = d.transaction attempt m s
run_attempts d (suc n) attempt m s =
    unless_serialization_failure (d.transaction attempt m s) (run_attempts d n (suc attempt) m)

module _ (d : Driver) where
  abbrev pub drizzle_repositories : PlatformRepositories Database
  drizzle_repositories = record {
    users = drizzle_users d;
    provider_identities = some (drizzle_provider_identities d);
    sessions = drizzle_sessions d;
    workspaces = drizzle_workspaces d;
    memberships = drizzle_memberships d;
    membership_approvals = some (drizzle_membership_approvals d);
    apps = drizzle_apps d;
    app_entitlements = drizzle_app_entitlements d;
    audit_events = some (drizzle_audit_events d);
  }

  abbrev pub drizzle_transactions : WorkspaceAdminTransactionRepository Database
  drizzle_transactions = record {
    run = λ operation. run_attempts d 2 0 (operation drizzle_repositories);
  }

-- What a transaction came to: it committed, and then it is the operation run alone, or it threw, and
-- then the state is as before and the error is the operation's or the driver's own.
abbrev pub IsAtomic : {S A : Type 0} → Io S A → S → Outcome A → S → Type 0
IsAtomic m s (ok a) s' = m s ≡ (ok a, s')
IsAtomic m s (thrown e) s' =
    (s' ≡ s) × (((m s).0 ≡ thrown e) ⊎ ((e ≡ plain) ⊎ (e ≡ serialization_failure)))

-- How a call with its attempts from `first` to `limit` ended: each attempt before the last one made
-- met a serialization failure and left no trace, the call ended as that last one did, and it ended
-- with a serialization failure only if all attempts were made.
pub record IsRetried {S A : Type 0} (d : Driver) (first limit : ℕ) (m : Io S A) (s : S)
    (r : Outcome A) (s' : S) : Type 0 where
  pub last : ℕ
  pub from : first ≤ last
  pub to : last ≤ limit
  pub retried :
      (k : ℕ) → first ≤ k → k < last → d.transaction k m s ≡ (thrown serialization_failure, s)
  pub final : d.transaction last m s ≡ (r, s')
  pub exhausted : r ≡ thrown serialization_failure → last ≡ limit

attempt-cases :
    {S A : Type 0} (t : Outcome A × S) (again : Io S A) (r : Outcome A) (s' : S)
    → unless_serialization_failure t again ≡ (r, s')
    → ((t.0 ≡ thrown serialization_failure) × (again t.1 ≡ (r, s')))
      ⊎ ((t ≡ (r, s')) × (r ≢ thrown serialization_failure))
attempt-cases (thrown serialization_failure, u) again r s' h = inl (refl, h)
attempt-cases (o, u) again r s' h = inr (h, λ e. ground (arith, h, e))

module _ (d : Driver) {S A : Type 0} (m : Io S A) where
  transaction-IsAtomic :
      (k : ℕ) (s s' : S) (r : Outcome A) → d.transaction k m s ≡ (r, s') → IsAtomic m s r s'
  transaction-IsAtomic k s s' (ok a) h = d.transaction_commits k m s s' a h
  transaction-IsAtomic k s s' (thrown e) h = d.transaction_undone k m s s' e h

  attempt-IsRetried :
      (k limit : ℕ) (s s' : S) (r : Outcome A)
      → d.transaction k m s ≡ (thrown serialization_failure, s)
      → IsRetried d (suc k) limit m s r s'
      → IsRetried d k limit m s r s'
  attempt-IsRetried k limit s s' r e rest = record {
    last = rest.last;
    from = omega (arith, rest.from);
    to = rest.to;
    retried = λ j low high. elim (Bool-cases (ltb k j)) [
      | inl x ↦ rest.retried j (ground (arith, x)) high
      | inr x ↦
          let same : k ≡ j = ground (arith, x, low) in
          subst (λ i. d.transaction i m s ≡ (thrown serialization_failure, s)) same e
    ];
    final = rest.final;
    exhausted = rest.exhausted;
  }

  run_attempts-IsRetried :
      (n k limit : ℕ) (s s' : S) (r : Outcome A)
      → k + n ≡ limit
      → run_attempts d n k m s ≡ (r, s')
      → IsRetried d k limit m s r s'
  unfolding run_attempts
  run_attempts-IsRetried zero k limit s s' r c h = record {
    last = k;
    from = omega arith;
    to = omega (arith, c);
    retried = λ j low high. absurd (omega (arith, low, high));
    final = h;
    exhausted = λ _. omega (arith, c);
  }
  run_attempts-IsRetried (suc n) k limit s s' r c h =
      elim (attempt-cases (d.transaction k m s) (run_attempts d n (suc k) m) r s' h) [
        | inl (e, again) ↦
            let t = (d.transaction k m s).1 in
            let failed : d.transaction k m s ≡ (thrown serialization_failure, t) =
              ap (λ o. (o, t)) e in
            let same = (d.transaction_undone k m s t serialization_failure failed).0 in
            attempt-IsRetried k limit s s' r
              (failed ∙ ap (λ u. (thrown serialization_failure, u)) same)
              (run_attempts-IsRetried n (suc k) limit s s' r (omega (arith, c))
                (ap (run_attempts d n (suc k) m) (sym same) ∙ again))
        | inr (e, other) ↦ record {
          last = k;
          from = omega arith;
          to = omega (arith, c);
          retried = λ j low high. absurd (omega (arith, low, high));
          final = e;
          exhausted = λ x. absurd (other x);
        }
      ]

  -- A transaction of the repositories that returns ran its operation alone, and one that throws left no
  -- trace.
  pub run_attempts-IsAtomic :
      (n k : ℕ) (s s' : S) (r : Outcome A) → run_attempts d n k m s ≡ (r, s') → IsAtomic m s r s'
  run_attempts-IsAtomic n k s s' r h =
      let tried = run_attempts-IsRetried n k (k + n) s s' r refl h in
      transaction-IsAtomic tried.last s s' r tried.final

module _ (d : Driver) {A : Type 0} (operation : PlatformRepositories Database → Io Database A) where
  -- The transactions of the repositories are retried: a call makes at most three attempts, another one
  -- only after a serialization failure, which left no trace; it ends as the last attempt did, with a
  -- serialization failure only if that was the third; and it is atomic: it returns what the operation
  -- alone does and leaves its state, or it throws, its own error or the driver's, and changes nothing.
  pub run-IsRetried :
      (db db' : Database) (r : Outcome A)
      → (drizzle_transactions d).run operation db ≡ (r, db')
      → IsRetried d 0 2 (operation (drizzle_repositories d)) db r db'
        × IsAtomic (operation (drizzle_repositories d)) db r db'
  run-IsRetried db db' r h =
      let m = operation (drizzle_repositories d) in
      (run_attempts-IsRetried d m 2 0 2 db db' r refl h, run_attempts-IsAtomic d m 2 0 db db' r h)
