-- ===== src/Process/Lifecycle/Order.antt =====
-- A test on the tables of a `main`, and what it proves of every moment of a shutdown.
use skill_bridge_platform.Base.{
  ℕ, zero, suc, String, Bool, true, false, not, List, [], ◌∷◌, ◌++◌, ◌≡◌, ◌&&◌, ◌||◌, refl, sym, ap,
  ◌∙◌, inl, inr, contains, map, Action, ok, if◌then◌else◌, arith, str_dec, Bool-cases,
}
use skill_bridge_platform.Process.Shutdown.{
  ShutdownStep, graceful_stop, force_stop, take_all, wait, wait-take_all, steps_of,
}
use skill_bridge_platform.Process.Lifecycle.{
  Main, without, told_by, stopped_by, running_after, grpc_servers, later_steps, take, AllIn, Moment,
  Uses,
}

-- Does one of these steps tell the part to stop?
unfoldable pub stops : Main → List ShutdownStep → String → Bool
stops m [] p = false
stops m (x ∷ xs) p = contains p (told_by m x) || stops m xs p

-- Is `p` told before `q`, or with it, if `q` is told at all?
unfoldable pub before : Main → List ShutdownStep → String → String → Bool
before m [] p q = true
before m (x ∷ xs) p q =
    let rest = before m xs p q in
    if contains p (told_by m x) then true else if contains q (told_by m x) then false else rest

abbrev pub outlives : Main → String → String → Bool
outlives m p q =
    not (contains q (grpc_servers m))
    && (contains p (grpc_servers m) || before m (later_steps m) p q)

unfoldable pub is_ordered : Main → List (String × String) → Bool
is_ordered m [] = true
is_ordered m ((p, q) ∷ us) = (contains p m.lasting || outlives m p q) && is_ordered m us

abbrev pub is_stopped : Main → String → Bool
is_stopped m p = contains p (grpc_servers m) || stops m (later_steps m) p

-- Is each of these parts told to stop, if it is not to last?
unfoldable pub all_stopped : Main → List String → Bool
all_stopped m [] = true
all_stopped m (p ∷ ps) =
    (if contains p m.lasting then not (is_stopped m p) else is_stopped m p) && all_stopped m ps

pub contains-without :
    (k : String) (stopped xs : List String)
    → contains k (without stopped xs) ≡ (contains k xs && not (contains k stopped))
unfolding without
contains-without k stopped [] = refl
contains-without k stopped (x ∷ xs) = elim (str_dec k x) [
  | yes same ↦
      ground
        (arith, same, ap (λ (y : String). contains y stopped) same, contains-without k stopped xs)
  | no other ↦ ground (arith, other, contains-without k stopped xs)
]

contains-running_after :
    (m : Main) (late : List String) (k : String) (steps : List ShutdownStep) (running : List String)
    → contains k (running_after m late steps running)
      ≡ (contains k running && not (stops m steps k && not (contains k late)))
unfolding running_after stops
contains-running_after m late k [] running = ground arith
contains-running_after m late k (x ∷ xs) running = ground (
  arith,
  contains-running_after m late k xs (without (stopped_by m late x) running),
  contains-without k (stopped_by m late x) running,
  contains-without k late (told_by m x),
)

stops-before :
    (m : Main) (p q : String) (steps : List ShutdownStep) (n : ℕ)
    → before m steps p q ≡ true
    → stops m (take n steps) p ≡ false
    → stops m (take n steps) q ≡ false
unfolding before stops take
stops-before m p q steps zero h e = refl
stops-before m p q [] (suc n) h e = refl
stops-before m p q (x ∷ xs) (suc n) h e = ground (arith, stops-before m p q xs n)

AllIn-contains :
    (k : String) (xs ys : List String) → AllIn xs ys → contains k xs ≡ true → contains k ys ≡ true
AllIn-contains k [] ys all h = absurd (cc)
AllIn-contains k (x ∷ xs) ys (own, all) h = elim (str_dec k x) [
  | yes same ↦ ap (λ (y : String). contains y ys) same ∙ own
  | no other ↦ AllIn-contains k xs ys all (ground (arith, other, h))
]

is_ordered-outlives :
    (m : Main) (us : List (String × String)) (p q : String)
    → is_ordered m us ≡ true
    → Uses us p q
    → (contains p m.lasting || outlives m p q) ≡ true
unfolding is_ordered
is_ordered-outlives m [] p q h u = elim u [ ]
is_ordered-outlives m ((a, b) ∷ us) p q h (inl (e, f)) = rw (e, f) (ground (arith, h))
is_ordered-outlives m ((a, b) ∷ us) p q h (inr u) =
    is_ordered-outlives m us p q (ground (arith, h)) u

-- Whatever part of the process runs at a moment still has each part that it uses, if that was
-- started at all, unless it is to last or does not stop when it is told.
pub ordered_lem :
    (m : Main) (late started running : List String)
    → is_ordered m m.uses ≡ true
    → Moment m late started running
    → (p q : String) → Uses m.uses p q
    → contains p m.lasting ≡ false
    → contains p late ≡ false
    → contains p running ≡ true
    → contains q started ≡ true
    → contains q running ≡ true
ordered_lem m late started running h (Moment.stopping finished _ all e) p q u ends prompt runs was =
    let ok = is_ordered-outlives m m.uses p q h u in
    elim (Bool-cases (contains q finished)) [
      | inl gone ↦
          absurd (ground (arith, ok, ends, AllIn-contains q finished (grpc_servers m) all gone))
      | inr there ↦
          ap (contains q) e
          ∙ contains-without q (without late finished) started
          ∙ ground (arith, was, there, contains-without q late finished)
    ]
ordered_lem m late started running h (Moment.later n _ e) p q u ends prompt runs was =
    let ok = is_ordered-outlives m m.uses p q h u in
    let servers = without late (grpc_servers m) in
    let steps = later_steps m in
    let p_runs = ap (contains p) (sym e) ∙ runs in
    ap (contains q) e
    ∙ contains-running_after m late q (take n steps) (without servers started)
    ∙ ground (
      arith,
      ok,
      ends,
      prompt,
      was,
      p_runs,
      contains-running_after m late p (take n steps) (without servers started),
      contains-without p servers started,
      contains-without q servers started,
      contains-without p late (grpc_servers m),
      contains-without q late (grpc_servers m),
      stops-before m p q steps n,
    )

all_stopped-is_stopped :
    (m : Main) (ps : List String) (p : String)
    → all_stopped m ps ≡ true
    → contains p ps ≡ true
    → is_stopped m p ≡ not (contains p m.lasting)
unfolding all_stopped
all_stopped-is_stopped m [] p h there = absurd (cc)
all_stopped-is_stopped m (x ∷ ps) p h there = elim (str_dec p x) [
  | yes same ↦
      ap (is_stopped m) same
      ∙ ground (arith, h)
      ∙ ap (λ (y : String). not (contains y m.lasting)) (sym same)
  | no other ↦ all_stopped-is_stopped m ps p (ground (arith, h)) (ground (arith, other, there))
]

-- A step stops those of its parts that are not late, and answers without an error.
abbrev pub halt : Main → (late : List String) → ShutdownStep → Action (List String) (Unit {0})
halt m late x running = (ok tt, without (stopped_by m late x) running)

take_all-running_after :
    (m : Main) (late : List String) (steps : List ShutdownStep) (running : List String)
    → take_all (halt m late) steps running ≡ running_after m late steps running
unfolding take_all running_after
take_all-running_after m late [] running = refl
take_all-running_after m late (x ∷ xs) running =
    take_all-running_after m late xs (without (stopped_by m late x) running)

stops-append :
    (m : Main) (xs ys : List ShutdownStep) (p : String)
    → stops m (xs ++ ys) p ≡ (stops m xs p || stops m ys p)
unfolding stops
stops-append m [] ys p = refl
stops-append m (x ∷ xs) ys p = ground (arith, stops-append m xs ys p)

stops-graceful :
    (m : Main) (servers : List String) (p : String)
    → stops m (map graceful_stop servers) p ≡ contains p servers
unfolding stops
stops-graceful m [] p = refl
stops-graceful m (x ∷ xs) p = ground (arith, stops-graceful m xs p)

stops-force :
    (m : Main) (servers : List String) (p : String)
    → stops m (map force_stop servers) p ≡ contains p servers
unfolding stops
stops-force m [] p = refl
stops-force m (x ∷ xs) p = ground (arith, stops-force m xs p)

stops-steps_of :
    (m : Main) (timed_out : Bool) (p : String)
    → stops m (steps_of timed_out m.options) p ≡ is_stopped m p
unfolding stops
stops-steps_of m timed_out p =
    let servers = grpc_servers m in
    let forced = if timed_out then map force_stop servers else [] in
    ground (
      arith,
      stops-append m (map graceful_stop servers) (forced ++ later_steps m) p,
      stops-append m forced (later_steps m) p,
      stops-graceful m servers p,
      stops-force m servers p,
    )

-- What runs when `Wait` returns.
after_wait :
    (m : Main) (late : List String) (timed_out : Bool) (started : List String) (p : String)
    → contains p (wait (halt m late) timed_out m.options started)
      ≡ (contains p started && not (is_stopped m p && not (contains p late)))
after_wait m late timed_out started p =
    let steps = steps_of timed_out m.options in
    ap (contains p) (
      wait-take_all (halt m late) timed_out m.options started
      ∙ take_all-running_after m late steps started)
    ∙ contains-running_after m late p steps started
    ∙ ground (arith, stops-steps_of m timed_out p)

-- Of the parts, it is what was started and does not stop when it is told, or is not told.
pub all_stopped_lem :
    (m : Main) (late : List String) (timed_out : Bool) (started : List String) (p : String)
    → all_stopped m m.parts ≡ true
    → contains p m.parts ≡ true
    → contains p (wait (halt m late) timed_out m.options started)
      ≡ (contains p started && (contains p late || contains p m.lasting))
all_stopped_lem m late timed_out started p h there =
    after_wait m late timed_out started p
    ∙ ground (arith, all_stopped-is_stopped m m.parts p h there)

-- What was not started does not run at the end either.
pub not_started_lem :
    (m : Main) (late : List String) (timed_out : Bool) (started : List String) (p : String)
    → contains p started ≡ false
    → contains p (wait (halt m late) timed_out m.options started) ≡ false
not_started_lem m late timed_out started p absent =
    after_wait m late timed_out started p ∙ ground (arith, absent)
