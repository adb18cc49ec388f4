-- ===== src/Dispatch/Threads.antt =====
-- Over a session of calls of `stata_call` (src/lib.rs): the thread count is fixed once Polars has started.
use stata_parquet_io.Prelude.{
  ℕ, ◌≡◌, refl, sym, ◌∙◌, inl, inr, Bool, true, false, not, ◌&&◌, List, [], ◌∷◌, Option, none, some,
  arith, ltb, leb, ◌==◌, if◌then◌else◌, if_both, if_true, Option-cases, subst,
}
use stata_parquet_io.Prelude.Text.{Text, codes, text_Eq, text_eq, trim, parse_usize, show_ℕ}
use stata_parquet_io.Dispatch.{Session, arg_or}
use stata_parquet_io.Dispatch.Call.{
  Handlers, set_threads, set_sql_if, is_setup, run, all_texts, stata_call,
}

-- The session after calls.
unfoldable pub after : Handlers → Session → List (List (Option Text)) → Session
after h s [] = s
after h s (argv ∷ calls) = after h (stata_call h s argv).1 calls

-- Polars has started, and the thread count is the one given.
abbrev IsFixed : Option Text → ℕ × Session → Type 0
IsFixed threads (rc, s) = (s.polars_touched ≡ true) × (s.polars_max_threads ≡ threads)

set_threads-IsFixed :
    (s : Session) (args : List Text) (rc : ℕ) (threads : Option Text)
    → IsFixed threads (rc, s)
    → IsFixed threads (set_threads s args)
set_threads-IsFixed s args rc threads (t, m) =
    elim (Option-cases (parse_usize (trim (arg_or args 0 [])))) [
      | inl e ↦ rw (e, set_threads) (t, m)
      | inr (n, e) ↦
          let set : ℕ × Session = (0, record s { polars_max_threads = some (show_ℕ n) }) in
          rw (e, set_threads)
            (if_both (IsFixed threads) (ltb n 1) (198, s)
              (if s.polars_touched then (198, s) else set) (t, m)
              (subst (IsFixed threads) (sym (if_true s.polars_touched (198, s) set t)) (t, m)))
    ]

set_sql_if-IsFixed :
    (h : Handlers) (s : Session) (args : List Text) (rc : ℕ) (threads : Option Text)
    → IsFixed threads (rc, s)
    → IsFixed threads (set_sql_if h s args)
set_sql_if-IsFixed h s [] rc threads fixed = fixed
set_sql_if-IsFixed h s (a ∷ args) rc threads fixed = fixed

run-IsFixed :
    (h : Handlers) (s : Session) (name : Text) (args : List Text) (rc : ℕ) (threads : Option Text)
    → IsFixed threads (rc, s)
    → IsFixed threads (run h s name args)
unfolding run
run-IsFixed h s name args rc threads f =
    let P : ℕ × Session → Type 0 = IsFixed threads in
    if_both P (name == codes "setup_check") _ _ f (
      if_both P (name == codes "set_threads") _ _ (set_threads-IsFixed s args rc threads f) (
        if_both P (name == codes "read") _ _ f (
          if_both P (name == codes "describe") _ _ f (
            if_both P (name == codes "save") _ _ f (
              if_both P (name == codes "describe_stata_metadata") _ _ f (
                if_both P (name == codes "write_overflow_dta") _ _ f (
                  if_both P (name == codes "clean_path") _ _ f (
                    if_both P (name == codes "consolidate") _ _ f (
                      if_both P (name == codes "if") _ _ (set_sql_if-IsFixed h s args rc threads f)
                        f)))))))))

call-IsFixed :
    (h : Handlers) (s : Session) (argv : List (Option Text)) (rc : ℕ) (threads : Option Text)
    → IsFixed threads (rc, s)
    → IsFixed threads (stata_call h s argv)
unfolding stata_call
call-IsFixed h s argv rc threads f = elim (Option-cases (all_texts h argv)) [
  | inl e ↦ rw (e, stata_call) f
  | inr ([], e) ↦ rw (e, stata_call) f
  | inr (name ∷ args, e) ↦
      rw (e, stata_call)
        (run-IsFixed h (if is_setup h name then s else record s { polars_touched = true }) name args
          rc threads
          (if_both (λ x. IsFixed threads (rc, x)) (is_setup h name) s
            (record s { polars_touched = true }) f (refl, f.1)))
]

-- Once Polars has been started by a call, no later call, of whatever subcommands and arguments, changes
-- the thread count or makes Polars count as not started.
pub after-max_threads :
    (h : Handlers) (s : Session) (calls : List (List (Option Text)))
    → s.polars_touched ≡ true
    → ((after h s calls).polars_touched ≡ true)
      × ((after h s calls).polars_max_threads ≡ s.polars_max_threads)
unfolding after
after-max_threads h s [] t = (t, refl)
after-max_threads h s (argv ∷ calls) t =
    let (t', m') = call-IsFixed h s argv 0 s.polars_max_threads (t, refl) in
    let (t'', m'') = after-max_threads h (stata_call h s argv).1 calls t' in (t'', m'' ∙ m')

guards_lem :
    (a b t : Bool) (x y : ℕ × Session)
    → a ≡ not b
    → (if a then y else if t then y else x) ≡ (if b && not t then x else y)
guards_lem true true t x y h = absurd cc
guards_lem true false t x y h = refl
guards_lem false true true x y h = refl
guards_lem false true false x y h = refl
guards_lem false false t x y h = absurd cc

-- The code of `set_threads` with one argument: 0 and the count set exactly if the argument, trimmed, is a
-- number of at least 1 and Polars has not started; otherwise 198 and nothing changes.
pub stata_call-set_threads :
    (h : Handlers) (s : Session) (count : Text)
    → stata_call h s (some (codes "set_threads") ∷ some count ∷ [])
      ≡ (elim (parse_usize (trim count)) [
        | none ↦ (198, s)
        | some n ↦
            if leb 1 n && not s.polars_touched
            then (0, record s { polars_max_threads = some (show_ℕ n) })
            else (198, s)
      ])
unfolding stata_call run text_eq
stata_call-set_threads h s count = elim (Option-cases (parse_usize (trim count))) [
  | inl e ↦ rw (e, set_threads) refl
  | inr (n, e) ↦
      rw (e, set_threads)
        (guards_lem (ltb n 1) (leb 1 n) s.polars_touched
          (0, record s { polars_max_threads = some (show_ℕ n) }) (198, s) (ground arith))
]
