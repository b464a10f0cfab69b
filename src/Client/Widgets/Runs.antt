-- ===== src/Client/Widgets/Runs.antt =====
-- Two descriptions of a window over a database, and what the user does with both.
use qt_messenger.Prelude.{
  ◌≡◌, refl, sym, ap₂, subst, List, [], ◌∷◌, Bool, true, false, Option, none, some, if◌then◌else◌,
}

-- A description of a window: what an act makes of the database and of it, and what comes out.
abbrev pub Acting : Type 0 → Type 0 → Type 0 → Type 0 → Type 0
Acting A D S O = A → D → S → (S × O) × D

-- Acts one after the other, with all that comes out.
unfoldable pub run_acts : {A D S O : Type 0} → Acting A D S O → Acting (List A) D S (List O)
run_acts act [] d s = ((s, []), d)
run_acts act (x ∷ xs) d s =
    let r = act x d s in let q = run_acts act xs r.1 r.0.0 in ((q.0.0, r.0.1 ∷ q.0.1), q.1)

-- Related windows, the same output and the same database.
abbrev pub Agrees : {D S T O : Type 0} → (S → T → Type 0) → (S × O) × D → (T × O) × D → Type 0
Agrees R p q = R p.0.0 q.0.0 × (p.0.1 ≡ q.0.1) × (p.1 ≡ q.1)

-- Acts that keep two descriptions in agreement keep them so over any number of acts.
pub run_acts-Agrees :
    {A D S T O : Type 0}
    → (R : S → T → Type 0) (f : Acting A D S O) (g : Acting A D T O)
    → ((x : A) (d : D) (s : S) (t : T) → R s t → Agrees R (f x d s) (g x d t))
    → (xs : List A) (d : D) (s : S) (t : T) → R s t
    → Agrees R (run_acts f xs d s) (run_acts g xs d t)
unfolding run_acts
run_acts-Agrees R f g keeps [] d s t r = (r, refl, refl)
run_acts-Agrees R f g keeps (x ∷ xs) d s t r =
    let now = keeps x d s t r in
    let q = g x d t in
    let next =
      subst (λ d'. Agrees R (run_acts f xs d' (f x d s).0.0) (run_acts g xs q.1 q.0.0)) (sym now.2)
        (run_acts-Agrees R f g keeps xs q.1 (f x d s).0.0 q.0.0 now.0) in
    (next.0, ap₂ (λ o os. o ∷ os) now.1 next.1, next.2)

-- Two descriptions that branch on the same test.
pub if_both :
    {S T : Type 0} {s s' : S} {t t' : T}
    → (R : S → T → Type 0) (b : Bool) → R s t
    → R s' t'
    → R (if b then s else s') (if b then t else t')
if_both R true h h' = h
if_both R false h h' = h'

-- Both have stopped, or both have gone on to related results.
abbrev pub Alike : {S T : Type 0} → (S → T → Type 0) → Option S → Option T → Type 0
Alike R none none = Unit
Alike R (some s) (some t) = R s t
Alike R none (some t) = ⊥
Alike R (some s) none = ⊥

pub Alike-weaken :
    {S T : Type 0} {R Q : S → T → Type 0}
    → ((s : S) (t : T) → R s t → Q s t)
    → (o : Option S) (o' : Option T) → Alike R o o'
    → Alike Q o o'
Alike-weaken weaker none none h = h
Alike-weaken weaker (some s) (some t) h = weaker s t h
Alike-weaken weaker none (some t) h = absurd h
Alike-weaken weaker (some s) none h = absurd h

-- Events one after the other, until one stops the program.
abbrev pub and_run : {S T : Type 0} → (S → Option T) → Option S → Option T
and_run next none = none
and_run next (some s) = next s

pub and_run-Alike :
    {S T S' T' : Type 0}
    → (R : S → T → Type 0) (Q : S' → T' → Type 0) (f : S → Option S') (g : T → Option T')
    → ((s : S) (t : T) → R s t → Alike Q (f s) (g t))
    → (o : Option S) (o' : Option T) → Alike R o o'
    → Alike Q (and_run f o) (and_run g o')
and_run-Alike R Q f g keeps none none h = h
and_run-Alike R Q f g keeps (some s) (some t) h = keeps s t h
and_run-Alike R Q f g keeps none (some t) h = absurd h
and_run-Alike R Q f g keeps (some s) none h = absurd h

unfoldable pub run_until : {X S : Type 0} → (X → S → Option S) → List X → S → Option S
run_until step [] s = some s
run_until step (x ∷ xs) s = and_run (run_until step xs) (step x s)

-- Events that keep two descriptions alike keep them so over any number of events.
pub run_until-Alike :
    {X S T : Type 0}
    → (R : S → T → Type 0) (f : X → S → Option S) (g : X → T → Option T)
    → ((x : X) (s : S) (t : T) → R s t → Alike R (f x s) (g x t))
    → (xs : List X) (s : S) (t : T) → R s t
    → Alike R (run_until f xs s) (run_until g xs t)
unfolding run_until
run_until-Alike R f g keeps [] s t r = r
run_until-Alike R f g keeps (x ∷ xs) s t r =
    and_run-Alike R R (run_until f xs) (run_until g xs) (run_until-Alike R f g keeps xs) (f x s)
      (g x t) (keeps x s t r)
