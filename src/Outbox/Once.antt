-- ===== src/Outbox/Once.antt =====
-- Any number of dispatcher calls on one row, interleaved with each other and with restarts of the
-- process.
use wazzap_agent_go.Prelude.{
  ℕ, ◌+◌, ◌≤◌, ◌≡◌, sym, subst, true, false, ◌⊎◌, inl, inr, List, [], ◌∷◌, ◌++◌, arith,
}
use wazzap_agent_go.Outbox.Row.{pending, is_pending, World, resolve_interrupted}

-- One atomic action either makes no claim, or claims a pending row and takes it off `pending`.
-- A claim is a right to hand the row to the provider that has not been used yet.
abbrev pub Claims : World → ℕ → World → ℕ → Type 0
Claims w held w' held' =
    ((w'.sent + held' ≤ w.sent + held)
      × (is_pending w'.row.state ≡ true → is_pending w.row.state ≡ true))
    ⊎ ((w'.sent + held' ≤ w.sent + held + 1)
        × (is_pending w.row.state ≡ true)
        × (is_pending w'.row.state ≡ false))

-- A dispatcher as a machine of atomic actions on what its store keeps, with the claims that each of
-- its points holds.
pub record Machine : Type 1 where
  pub Store : Type 0
  pub Pc : Type 0
  pub Env : Type 0
  pub world : Store → World
  pub restarted : Store → Store
  pub entered : Pc
  pub step : Env → Pc → Store → Pc × Store
  pub held : Pc → ℕ
  pub entered_free : held entered ≡ 0
  pub restarted_world : (s : Store) → world (restarted s) ≡ resolve_interrupted (world s)
  pub step_claims :
      (env : Env) (pc : Pc) (s : Store)
      → Claims (world s) (held pc) (world (step env pc s).1) (held (step env pc s).0)

-- A row that was planned and not touched since.
abbrev pub IsPlanned : World → Type 0
IsPlanned w = (w.row.state ≡ pending) × (w.sent ≡ 0)

module _ (m : Machine) where
  open m use {
    Store, Pc, Env, world, restarted, entered, step, held, entered_free, restarted_world,
    step_claims,
  }

  pub record System : Type 0 where
    pub store : Store
    pub threads : List Pc

  -- A new call enters; a call makes one action, whatever its environment answers; the process
  -- restarts, which loses the calls and resolves an interrupted row.
  pub data Move (s t : System) : Type 0 where
    enter : t ≡ record s { threads = entered ∷ s.threads } → Move s t
    act :
        (before after : List Pc) (pc : Pc) (env : Env)
        → s.threads ≡ before ++ pc ∷ after
        → t ≡ record {
          store = (step env pc s.store).1;
          threads = before ++ (step env pc s.store).0 ∷ after;
        }
        → Move s t
    restart : t ≡ record { store = restarted s.store; threads = [] } → Move s t

  pub data Reach (s : System) : System → Type 0 where
    here : Reach s s
    next : {t u : System} → Reach s t → Move t u → Reach s u

  holders : List Pc → ℕ
  holders [] = 0
  holders (pc ∷ pcs) = held pc + holders pcs

  holders-append :
      (before after : List Pc) (pc : Pc)
      → holders (before ++ pc ∷ after) ≡ held pc + (holders before + holders after)
  unfolding holders
  holders-append [] after pc = omega arith
  holders-append (q ∷ before) after pc = omega (arith, holders-append before after pc)

  holders-enter : (pcs : List Pc) → holders (entered ∷ pcs) ≡ holders pcs
  unfolding holders
  holders-enter pcs = omega (arith, entered_free)

  -- At most one claim was ever made, and none while the row is pending.
  record Inv (w : World) (claims : ℕ) : Type 0 where
    one_claim : w.sent + claims ≤ 1
    unclaimed : is_pending w.row.state ≡ true → w.sent + claims ≡ 0

  Claims-Inv :
      (w w' : World) (h h' others : ℕ)
      → Claims w h w' h'
      → Inv w (h + others)
      → Inv w' (h' + others)
  Claims-Inv w w' h h' others (inl (fewer, stays)) i = record {
    one_claim = omega arith;
    unclaimed = λ p. let none_yet = i.unclaimed (stays p) in omega arith;
  }
  Claims-Inv w w' h h' others (inr (more, was, now)) i =
      let none_yet = i.unclaimed was in record { one_claim = omega arith; unclaimed = λ p. cc }

  resolve_interrupted-Inv :
      (w : World) (claims : ℕ) → Inv w claims → Inv (resolve_interrupted w) (holders [])
  unfolding resolve_interrupted holders
  resolve_interrupted-Inv w claims i = ground arith

  SystemInv : System → Type 0
  SystemInv s = Inv (world s.store) (holders s.threads)

  Move-Inv : (s t : System) → Move s t → SystemInv s → SystemInv t
  unfolding SystemInv
  Move-Inv s t (enter e) i = subst SystemInv (sym e) (rw (holders-enter s.threads) i)
  Move-Inv s t (act before after pc env e f) i =
      let counted = holders-append before after pc in
      let i' : Inv (world s.store) (held pc + (holders before + holders after)) =
        rw (← counted, ← e) i in
      subst SystemInv (sym f) (
        rw (holders-append before after (step env pc s.store).0) (
          Claims-Inv (world s.store) (world (step env pc s.store).1) (held pc)
            (held (step env pc s.store).0) (holders before + holders after)
            (step_claims env pc s.store) i'))
  Move-Inv s t (restart e) i =
      subst SystemInv (sym e)
        (rw (restarted_world s.store) (resolve_interrupted-Inv (world s.store) _ i))

  Reach-Inv : (s t : System) → SystemInv s → Reach s t → SystemInv t
  Reach-Inv s t i here = i
  Reach-Inv s t i (next {t = u} r mv) = Move-Inv u t mv (Reach-Inv s u i r)

  abbrev pub start_system : Store → System
  start_system store = record { store = store; threads = [] }

  start-Inv : (s : Store) → IsPlanned (world s) → SystemInv (start_system s)
  unfolding SystemInv holders
  start-Inv s p = ground arith

  -- From a planned row, whatever calls enter, however their actions interleave, whatever the
  -- environment answers and whenever the process restarts, the row is handed to the provider at
  -- most once.
  pub sent_once :
      (s : Store) (t : System)
      → IsPlanned (world s)
      → Reach (start_system s) t
      → (world t.store).sent ≤ 1
  unfolding SystemInv
  sent_once s t p r = omega (arith, (Reach-Inv (start_system s) t (start-Inv s p) r).one_claim)
