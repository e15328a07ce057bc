-- ===== src/Lifecycle/Heap.antt =====
-- What every step keeps of the pipelines.
use metrics_agent.Prelude.{
  ℕ, ◌≤◌, ◌<◌, ◌≡◌, ◌≢◌, refl, sym, ap, ◌∙◌, subst, true, false, List, [], ◌∷◌, ◌++◌, arith,
  get_elem?, set, length, length-append, length-set, get_elem?-set_self, get_elem?-set_ne, inl, inr,
  ◌==◌, ==_iff, Bool-cases,
}
use metrics_agent.Registry.{Pipeline, or_closed}
use metrics_agent.Registry.Routes.{identity, get_elem?-snoc}

abbrev pub pipe : List Pipeline → ℕ → Pipeline
pipe heap i = or_closed (get_elem? heap i)

-- A closed pipeline stays closed and takes nothing more.
pub record Frozen (p q : Pipeline) : Type 0 where
  pub stays : p.closed ≡ true → q.closed ≡ true
  pub no_more : p.closed ≡ true → length q.raw_ch ≤ length p.raw_ch

-- No pipeline goes, or changes its project, key or kind.
pub record Onward (h k : List Pipeline) : Type 0 where
  pub longer : length h ≤ length k
  pub who : (i : ℕ) → i < length h → identity (pipe k i) ≡ identity (pipe h i)
  pub frozen : (i : ℕ) → i < length h → Frozen (pipe h i) (pipe k i)

Frozen-refl : (p : Pipeline) → Frozen p p
Frozen-refl p = record { stays = λ e. e; no_more = λ e. omega arith }

pub Onward-refl : (h : List Pipeline) → Onward h h
Onward-refl h = record {
  longer = omega arith;
  who = λ i n. refl;
  frozen = λ i n. Frozen-refl (pipe h i);
}

pub Onward-trans : (h k l : List Pipeline) → Onward h k → Onward k l → Onward h l
Onward-trans h k l a b = record {
  longer = omega (arith, a.longer, b.longer);
  who = λ i n. b.who i (omega (arith, a.longer)) ∙ a.who i n;
  frozen = λ i n.
      let later = b.frozen i (omega (arith, a.longer)) in
      record {
        stays = λ e. later.stays ((a.frozen i n).stays e);
        no_more =
            λ e. omega (arith, later.no_more ((a.frozen i n).stays e), (a.frozen i n).no_more e);
      };
}

ne_of_ltb : (i j : ℕ) → (i == j) ≡ false → i ≢ j
ne_of_ltb i j h e = ground (arith, e)

-- A write to one pipeline.
pub store-Onward :
    (h : List Pipeline) (i : ℕ) (q : Pipeline)
    → identity q ≡ identity (pipe h i)
    → Frozen (pipe h i) q
    → Onward h (set h i q)
store-Onward h i q same f = record {
  longer = omega (arith, length-set h i q);
  who = λ j n. elim (Bool-cases (i == j)) [
    | inl e ↦
        let it : i ≡ j = (==_iff i j).0 e in
        subst (λ k. identity (pipe (set h i q) k) ≡ identity (pipe h k)) it
          (ap (λ o. identity (or_closed o)) (get_elem?-set_self h i q (omega arith)) ∙ same)
    | inr d ↦ ap (λ o. identity (or_closed o)) (get_elem?-set_ne h q (ne_of_ltb i j d))
  ];
  frozen = λ j n. elim (Bool-cases (i == j)) [
    | inl e ↦
        let it : i ≡ j = (==_iff i j).0 e in
        subst (λ k. Frozen (pipe h k) (pipe (set h i q) k)) it
          (subst (λ o. Frozen (pipe h i) (or_closed o))
            (sym (get_elem?-set_self h i q (omega arith))) f)
    | inr d ↦
        subst (λ o. Frozen (pipe h j) (or_closed o)) (sym (get_elem?-set_ne h q (ne_of_ltb i j d)))
          (Frozen-refl (pipe h j))
  ];
}

-- A new pipeline.
pub snoc-Onward : (h : List Pipeline) (q : Pipeline) → Onward h (h ++ q ∷ [])
snoc-Onward h q = record {
  longer = omega (arith, length-append h (q ∷ []));
  who = λ i n. ap (λ o. identity (or_closed o)) (get_elem?-snoc h q i n);
  frozen = λ i n.
      subst (λ o. Frozen (pipe h i) (or_closed o)) (sym (get_elem?-snoc h q i n))
        (Frozen-refl (pipe h i));
}
