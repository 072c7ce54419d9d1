-- ===== src/Prelude/Tx.antt =====
-- The transaction manager of go-transaction-manager, which the services call as `txManager.Do`.
use mathlib.Core.Path.{◌≡◌, refl, sym, ap, ◌∙◌, subst}
use mathlib.Core.Logic.{◌≢◌, ◌⊎◌, inl, inr}
use mathlib.Core.Option.{Option, none, some}
use rocket_factory.Prelude.Tests.{Option-cases}
use rocket_factory.Prelude.Action.{Action}
use rocket_factory.Prelude.Results.{Result, ok, err, panic}

-- A call over a world of two parts: `D` is the database, which a transaction covers, and `X` is
-- everything else (other services, the broker, captured variables), which no rollback undoes.
abbrev pub Body : Type 0 → Type 0 → Type 0 → Type 0
Body E D X = Action E (D × X) (Unit {0})

-- The answer of a call whose transaction comes to its commit: with the value and the world of a commit
-- that works, or with the error of a commit that fails, over the world that is left then.
abbrev pub unless_commit_fails : {E A W : Type 0} → Option E → A → W → W → Result E A × W
unless_commit_fails none a done undone = (ok a, done)
unless_commit_fails (some e) a done undone = (err e, undone)

-- The documented behaviour of `Do`: an error or a panic of the body undoes its writes and comes
-- back; after a body without error the writes are kept, unless the commit itself fails. Whether it
-- fails may depend on the writes and on the rest of the world, but not on the body.
pub record TxManager (E D X : Type 0) : Type 0 where
  pub run : Body E D X → Body E D X
  pub commit_fault : D → D → X → Option E
  pub rolls_back :
      (fn : Body E D X) (d d' : D) (x x' : X) (e : E)
      → fn (d, x) ≡ (err e, (d', x'))
      → run fn (d, x) ≡ (err e, (d, x'))
  pub repanics :
      (fn : Body E D X) (d d' : D) (x x' : X)
      → fn (d, x) ≡ (panic, (d', x'))
      → run fn (d, x) ≡ (panic, (d, x'))
  pub commits :
      (fn : Body E D X) (d d' : D) (x x' : X)
      → fn (d, x) ≡ (ok tt, (d', x'))
      → run fn (d, x) ≡ unless_commit_fails (commit_fault d d' x') tt (d', x') (d, x')

module _ {E D X : Type 0} (tx : TxManager E D X) (fn : Body E D X) (d : D) (x : X) where
  -- A transaction did what its body did without error, or it left the database as it was.
  pub run_cases :
      (r : Result E (Unit {0})) (d' : D) (x' : X)
      → tx.run fn (d, x) ≡ (r, (d', x'))
      → ((r ≡ ok tt) × (fn (d, x) ≡ (ok tt, (d', x')))) ⊎ ((r ≢ ok tt) × (d' ≡ d))
  run_cases r d' x' h = by_result (fn (d, x)).0 (fn (d, x)).1.0 (fn (d, x)).1.1 refl
    where
      by_result :
          (s : Result E (Unit {0})) (e : D) (y : X)
          → fn (d, x) ≡ (s, (e, y))
          → ((r ≡ ok tt) × (fn (d, x) ≡ (ok tt, (d', x')))) ⊎ ((r ≢ ok tt) × (d' ≡ d))
      by_result (ok u) e y p = elim (Option-cases (tx.commit_fault d e y)) [
        | inl works ↦
            let kept = rw works at (tx.commits fn d e x y p) in
            inl (sym (ap (λ v. v.0) (sym kept ∙ h)), cc (p, kept, h))
        | inr (c, fails) ↦
            let lost = rw fails at (tx.commits fn d e x y p) in
            inr (λ fine. cc (lost, h, fine), cc (lost, h))
      ]
      by_result (err c) e y p =
          inr (
            λ fine. cc (tx.rolls_back fn d e x y c p, h, fine),
            cc (tx.rolls_back fn d e x y c p, h),
          )
      by_result panic e y p =
          inr (λ fine. cc (tx.repanics fn d e x y p, h, fine), cc (tx.repanics fn d e x y p, h))

  pub run-eq-ok :
      (d' : D) (x' : X) → tx.run fn (d, x) ≡ (ok tt, (d', x')) → fn (d, x) ≡ (ok tt, (d', x'))
  run-eq-ok d' x' h = elim (run_cases (ok tt) d' x' h) [
    | inl (fine, done) ↦ done
    | inr (bad, unchanged) ↦ absurd (bad refl)
  ]

-- A manager whose commits never fail, which shows that the documented behaviour can be met.
abbrev settle : {E D X : Type 0} → D → Result E (Unit {0}) × (D × X) → Result E (Unit {0}) × (D × X)
settle d (ok u, w) = (ok u, w)
settle d (err e, (d', x)) = (err e, (d, x))
settle d (panic, (d', x)) = (panic, (d, x))

abbrev pub direct_tx : {E D X : Type 0} → TxManager E D X
direct_tx = record {
  run = λ fn w. settle w.0 (fn w);
  commit_fault = λ d d' x. none;
  rolls_back = λ fn d d' x x' e h. ap (settle d) h;
  repanics = λ fn d d' x x' h. ap (settle d) h;
  commits = λ fn d d' x x' h. ap (settle d) h;
}

-- A transaction keeps what its body keeps when it has no error.
pub run_keeps :
    {E D X : Type 0} (P : D → Type 0) (tx : TxManager E D X) (fn : Body E D X) (d : D) (x : X)
    → ((d' : D) → (x' : X) → fn (d, x) ≡ (ok tt, (d', x')) → P d')
    → P d
    → P (tx.run fn (d, x)).1.0
run_keeps P tx fn d x keep p =
    elim (run_cases tx fn d x (tx.run fn (d, x)).0 (tx.run fn (d, x)).1.0 (tx.run fn (d, x)).1.1
      refl) [ inl (fine, done) ↦ keep _ _ done | inr (bad, same) ↦ subst P (sym same) p ]
