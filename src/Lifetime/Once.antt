-- ===== src/Lifetime/Once.antt =====
-- internal/controller/lifetimeledger.go and anchor.go: a ledger through any sequence of its writes.
use stageset_controller.Prelude.{
  ℕ, String, ◌≡◌, refl, sym, ◌∙◌, subst, inl, inr, Bool, false, Option, some, List, [], ◌∷◌, ◌++◌,
  arith, Bool-cases, keep_if, Result, Result-cases, ok, err, str_eq_sym,
}
use stageset_controller.Ladder.{CompletionAnchor}
use stageset_controller.Lifetime.{LedgerCompletion, AnchorRead, drop_completions}
use stageset_controller.Lifetime.Records.{
  LedgerRef, StageLedger, LifetimeStage, Conditions, is_completed, is_lifetime_action, baselined_at,
  promote_refs, promote_baseline, witness_of, RecordError, record_lifetime_completion,
}
use stageset_controller.Lifetime.Promoted.{
  is_completed-append, reconcile_baseline_condition-completions,
}

-- No action of a stage is completed twice.
abbrev pub Once : List LedgerCompletion → Type 0
Once [] = Unit
Once (c ∷ cs) = (is_completed cs c.stage c.action ≡ false) × Once cs

Once-append :
    (cs : List LedgerCompletion) (c : LedgerCompletion)
    → is_completed cs c.stage c.action ≡ false
    → Once cs
    → Once (cs ++ c ∷ [])
unfolding is_completed
Once-append [] c n o = (refl, tt)
Once-append (d ∷ ds) c n (k, o) = (
  is_completed-append ds (c ∷ []) d.stage d.action
      ∙ ground (arith, k, n, str_eq_sym c.stage d.stage, str_eq_sym c.action d.action),
  Once-append ds c (ground (arith, n)) o,
)

module _ (stages : List LifetimeStage) (now : ℕ) where
  promote_refs-Once :
      (rs : List LedgerRef) (cs : List LedgerCompletion)
      → Once cs
      → Once (promote_refs stages now rs cs).0
  unfolding promote_refs
  promote_refs-Once [] cs o = o
  promote_refs-Once (r ∷ rs) cs o = elim (Bool-cases (is_lifetime_action stages r.stage r.action)) [
    | inr n ↦ subst Once (rw (n) refl) (promote_refs-Once rs cs o)
    | inl y ↦ elim (Bool-cases (is_completed cs r.stage r.action)) [
      | inl d ↦ subst Once (rw (y, d) refl) (promote_refs-Once rs cs o)
      | inr d ↦
          let grown = cs ++ baselined_at now r ∷ [] in
          subst Once (rw (y, d) refl)
            (promote_refs-Once rs grown (Once-append cs (baselined_at now r) d o))
    ]
  ]

is_completed-keep_if :
    (p : LedgerCompletion → Bool) (cs : List LedgerCompletion) (s a : String)
    → is_completed cs s a ≡ false
    → is_completed (keep_if p cs) s a ≡ false
unfolding is_completed
is_completed-keep_if p [] s a n = refl
is_completed-keep_if p (c ∷ cs) s a n = ground (arith, n, is_completed-keep_if p cs s a)

keep_if-Once :
    (p : LedgerCompletion → Bool) (cs : List LedgerCompletion) → Once cs → Once (keep_if p cs)
keep_if-Once p [] o = tt
keep_if-Once p (c ∷ cs) (n, o) = elim (Bool-cases (p c)) [
  | inl y ↦ rw (y) (is_completed-keep_if p cs c.stage c.action n, keep_if-Once p cs o)
  | inr k ↦ rw (k) (keep_if-Once p cs o)
]

-- The writes of a ledger: a baseline that an author sets, a pass over it, a completion, and the completions of a
-- stage that are dropped.
pub data Write : StageLedger → StageLedger → Type 0 where
  declare : (l : StageLedger) (rs : List LedgerRef) → Write l (record l { baseline = rs })
  promote :
      (api : Conditions) (name : String) (now : ℕ) (stages : List LifetimeStage) (l : StageLedger)
      → Write l (promote_baseline api name now stages l).ledger
  complete :
      (read : CompletionAnchor → AnchorRead) (now : ℕ) (l after : StageLedger)
      (stage action : String) (anchor : Option CompletionAnchor)
      → record_lifetime_completion read now (some l) stage action anchor ≡ ok after
      → Write l after
  take_back :
      (l : StageLedger) (stage : String) (actions : List String)
      → Write l
          (record l { completed_actions = drop_completions l.completed_actions stage actions })

pub data Writes : StageLedger → StageLedger → Type 0 where
  stays : (l : StageLedger) → Writes l l
  step : {l : StageLedger} (m n : StageLedger) → Writes l m → Write m n → Writes l n

abbrev OkOnce : Result RecordError StageLedger → Type 0
OkOnce (ok l) = Once l.completed_actions
OkOnce (err e) = Unit

record_lifetime_completion-OkOnce :
    (read : CompletionAnchor → AnchorRead) (now : ℕ) (l : StageLedger) (stage action : String)
    (anchor : Option CompletionAnchor)
    → Once l.completed_actions
    → OkOnce (record_lifetime_completion read now (some l) stage action anchor)
unfolding record_lifetime_completion
record_lifetime_completion-OkOnce read now l stage action anchor o =
    elim (Bool-cases (is_completed l.completed_actions stage action)) [
      | inl d ↦ rw (d) o
      | inr n ↦ elim (Result-cases (witness_of read anchor)) [
        | inr (x, k) ↦ rw (n, k) tt
        | inl (w, k) ↦ rw (n, k) (Once-append l.completed_actions _ n o)
      ]
    ]

Write-Once : {l m : StageLedger} → Write l m → Once l.completed_actions → Once m.completed_actions
unfolding promote_baseline drop_completions
Write-Once (declare l rs) o = o
Write-Once (promote api name now stages l) o =
    let refs = promote_refs stages now l.baseline l.completed_actions in
    subst Once
      (sym (
        reconcile_baseline_condition-completions stages now api name
          (record l { completed_actions = refs.0 }) refs.1))
      (promote_refs-Once stages now l.baseline l.completed_actions o)
Write-Once (complete read now l after stage action anchor e) o =
    subst OkOnce e (record_lifetime_completion-OkOnce read now l stage action anchor o)
Write-Once (take_back l stage actions) o = keep_if-Once _ l.completed_actions o

-- Whatever sequence of baselines, passes over them, completions and drops a ledger goes through, no action
-- of a stage is completed twice in it, if none was before.
pub Writes-Once :
    (l m : StageLedger) → Writes l m → Once l.completed_actions → Once m.completed_actions
Writes-Once l m (stays _) o = o
Writes-Once l m (step k n ws w) o = Write-Once w (Writes-Once l k ws o)
