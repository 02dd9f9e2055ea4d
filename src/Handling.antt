-- ===== src/Handling.antt =====
-- server.go and localstate.go: which messages of one sender and token run the handler.
use coalago.Base.{
  ℕ, zero, suc, ◌+◌, ◌≤◌, ◌≡◌, refl, sym, ap, ◌∙◌, Bool, true, false, Option, none, some, List, [],
  ◌∷◌, ◌++◌, ◌||◌, ◌==◌, ==_iff, if◌then◌else◌, length, get_elem?, set, arith, Bool-cases,
  Option-cases, inl, inr,
}

-- What the server keeps for one key: runnedHandler of each local state made for it, the one that is
-- in StorageLocalStates, whether the key is in ProcessedMessages, and the local states whose
-- handler ran, the last first.
pub record Handling : Type 0 where
  pub ran : List Bool
  pub stored : Option ℕ
  pub processed : Bool
  pub runs : List ℕ

-- newServer: nothing is kept.
abbrev pub nothing_kept : Handling
nothing_kept = record { ran = []; stored = none; processed = false; runs = [] }

-- processLocalState: a message is dropped, or it goes to the local state that is stored or made.
unfoldable pub process_local_state : Handling → Handling
process_local_state h = elim h.processed [
  | true ↦ h
  | false ↦ elim h.stored [
    | some i ↦ h
    | none ↦ record h { ran = h.ran ++ (false ∷ []); stored = some (length h.ran) }
  ]
]

-- localRespHandler of the local state `i`: the handler runs if the swap of runnedHandler succeeds.
unfoldable pub call_handler : ℕ → Handling → Handling
call_handler i h = elim (get_elem? h.ran i) [
  | none ↦ h
  | some true ↦ h
  | some false ↦ record h { ran = set h.ran i true; runs = i ∷ h.runs }
]

-- The steps of the server for a key: a message, a call of a handler, the removal of the local state
-- (after a handler or by its time), and a key that is put into ProcessedMessages or is over.
pub data Steps : Handling → Type 0 where
  start : Steps nothing_kept
  receive : (h : Handling) → Steps h → Steps (process_local_state h)
  call : (h : Handling) (i : ℕ) → Steps h → Steps (call_handler i h)
  remove : (h : Handling) → Steps h → Steps (record h { stored = none })
  processed_set : (h : Handling) → Steps h → Steps (record h { processed = true })
  lapse : (h : Handling) → Steps h → Steps (record h { processed = false })

-- runnedHandler of the local state `i`.
flag : List Bool → ℕ → Bool
flag [] i = false
flag (b ∷ bs) zero = b
flag (b ∷ bs) (suc i) = flag bs i

flag-snoc : (bs : List Bool) (i : ℕ) → flag (bs ++ (false ∷ [])) i ≡ flag bs i
unfolding flag
flag-snoc [] zero = refl
flag-snoc [] (suc i) = refl
flag-snoc (b ∷ bs) zero = refl
flag-snoc (b ∷ bs) (suc i) = flag-snoc bs i

flag-set :
    (bs : List Bool) (i j : ℕ)
    → get_elem? bs i ≡ some false
    → flag (set bs i true) j ≡ (i == j) || flag bs j
unfolding flag
flag-set [] i j e = cc e
flag-set (b ∷ bs) zero zero e = refl
flag-set (b ∷ bs) zero (suc j) e = ground arith
flag-set (b ∷ bs) (suc i) zero e = ground arith
flag-set (b ∷ bs) (suc i) (suc j) e = ground (arith, flag-set bs i j e)

flag-get : (bs : List Bool) (i : ℕ) → get_elem? bs i ≡ some false → flag bs i ≡ false
unfolding flag
flag-get [] i e = refl
flag-get (b ∷ bs) zero e = cc e
flag-get (b ∷ bs) (suc i) e = flag-get bs i e

-- How often the handler of a local state ran.
unfoldable pub times_run : ℕ → List ℕ → ℕ
times_run i [] = 0
times_run i (j ∷ js) = let rest = times_run i js in if j == i then rest + 1 else rest

-- The runs and the flags of a state.
abbrev IsFlagged : Handling → ℕ → Type 0
IsFlagged h i = times_run i h.runs ≡ (if flag h.ran i then 1 else 0)

received : (g : Handling) (i : ℕ) → IsFlagged g i → IsFlagged (process_local_state g) i
unfolding process_local_state
received g i f = elim (Bool-cases g.processed) [
  | inl p ↦ rw (p, process_local_state) f
  | inr p ↦
      rw (p, process_local_state)
        (elim (Option-cases g.stored) [
          | inr (k, e) ↦ rw (e, process_local_state) f
          | inl e ↦ rw (e, process_local_state) (rw (flag-snoc g.ran i) f)
        ])
]

called : (g : Handling) (k i : ℕ) → IsFlagged g i → IsFlagged (call_handler k g) i
unfolding call_handler
called g k i f = elim (Option-cases (get_elem? g.ran k)) [
  | inl e ↦ rw (e, call_handler) f
  | inr (true, e) ↦ rw (e, call_handler) f
  | inr (false, e) ↦
      rw (e, call_handler)
        (rw (flag-set g.ran k i e) (
          unfold times_run in
          (elim (Bool-cases (k == i)) [
            | inl q ↦
                let unset : flag g.ran i ≡ false =
                  ap (flag g.ran) (sym ((==_iff k i).0 q)) ∙ flag-get g.ran k e in
                let none_yet = rw unset at f in rw q (ap (λ n. n + 1) none_yet)
            | inr q ↦ rw q f
          ])))
]

runs_flag :
    (h : Handling) → Steps h → (i : ℕ) → times_run i h.runs ≡ (if flag h.ran i then 1 else 0)
unfolding flag
runs_flag h Steps.start i = unfold times_run in refl
runs_flag h (Steps.receive g s) i = received g i (runs_flag g s i)
runs_flag h (Steps.call g k s) i = called g k i (runs_flag g s i)
runs_flag h (Steps.remove g s) i = runs_flag g s i
runs_flag h (Steps.processed_set g s) i = runs_flag g s i
runs_flag h (Steps.lapse g s) i = runs_flag g s i

-- Whatever messages come and whatever handlers are called, and in whatever order local states and
-- keys are removed: the handler of one local state runs at most once.
pub times_run-le : (h : Handling) (i : ℕ) → Steps h → times_run i h.runs ≤ 1
times_run-le h i s = ground (arith, runs_flag h s i)
