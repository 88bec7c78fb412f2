-- ===== src/Span/Reify/Links.antt =====
-- What a look-up changes of the links between the spans.
use incubator_htrace.Prelude.{
  ℕ, suc, ◌≤◌, ◌<◌, ◌≡◌, ◌≢◌, refl, sym, ap, subst, ◌∙◌, List, [], ◌∷◌, arith, ◌⊎◌, inl, inr, All,
  All-imp, ◌==◌, if◌then◌else◌, Bool-cases, Text,
}
use incubator_htrace.Prelude.Sort.{All-sort}
use incubator_htrace.Widget.Triangle.Session.{==_refl}
use incubator_htrace.Span.{Span, WireSpan, parse, object_or, fresh_parents}
use incubator_htrace.Span.Store.{Store, update}
use incubator_htrace.Span.Ajax.{
  AjaxCall, Parsed, parsed, parse_all, FirstFailure, parse_multi_span_ajax_query_results,
  parse_multi_lem,
}
use incubator_htrace.Span.Reify.{
  allocate, sort_spans_by_begin_time, set_reified_parents, set_reified_children, adopt, attach,
}

abbrev pub parents_of : Span → List ℕ
parents_of s = object_or s.reified_parents []

abbrev pub children_of : Span → List ℕ
children_of s = object_or s.reified_children []

-- A span without links.
abbrev pub IsBlank : Span → Type 0
IsBlank s = (parents_of s ≡ []) × (children_of s ≡ [])

-- Two sorts of links, and how they are set.
pub record IsLinkPair (near far : Span → List ℕ) (set_near set_far : ℕ → List ℕ → Store → Store)
    : Type 0 where
  pub near_next : (k : ℕ) (v : List ℕ) (st : Store) → (set_near k v st).next ≡ st.next
  pub far_next : (k : ℕ) (v : List ℕ) (st : Store) → (set_far k v st).next ≡ st.next
  pub near-set_near :
      (k : ℕ) (v : List ℕ) (st : Store) (x : ℕ)
      → near ((set_near k v st).cell x) ≡ (if x == k then v else near (st.cell x))
  pub far-set_near :
      (k : ℕ) (v : List ℕ) (st : Store) (x : ℕ) → far ((set_near k v st).cell x) ≡ far (st.cell x)
  pub far-set_far :
      (k : ℕ) (v : List ℕ) (st : Store) (x : ℕ)
      → far ((set_far k v st).cell x) ≡ (if x == k then v else far (st.cell x))
  pub near-set_far :
      (k : ℕ) (v : List ℕ) (st : Store) (x : ℕ) → near ((set_far k v st).cell x) ≡ near (st.cell x)
  pub blank : (s : Span) → IsBlank s → (near s ≡ []) × (far s ≡ [])

pub upward : IsLinkPair parents_of children_of set_reified_parents set_reified_children
unfolding set_reified_parents set_reified_children update
upward = record {
  near_next = λ k v st. refl;
  far_next = λ k v st. refl;
  near-set_near = λ k v st x. ground arith;
  far-set_near = λ k v st x. ground arith;
  far-set_far = λ k v st x. ground arith;
  near-set_far = λ k v st x. ground arith;
  blank = λ s h. h;
}

pub downward : IsLinkPair children_of parents_of set_reified_children set_reified_parents
unfolding set_reified_parents set_reified_children update
downward = record {
  near_next = λ k v st. refl;
  far_next = λ k v st. refl;
  near-set_near = λ k v st x. ground arith;
  far-set_near = λ k v st x. ground arith;
  far-set_far = λ k v st x. ground arith;
  near-set_far = λ k v st x. ground arith;
  blank = λ s h. (h.1, h.0);
}

-- The places of new models, and what stands in all others.
pub record IsAllocated (st st' : Store) (places : List ℕ) : Type 0 where
  pub next_le : st.next ≤ st'.next
  pub fresh : All (λ p. (st.next ≤ p) × (p < st'.next)) places
  pub old : (x : ℕ) → x < st.next → st'.cell x ≡ st.cell x
  pub new : (x : ℕ) → st.next ≤ x → IsBlank (st'.cell x)

pub allocate_lem :
    (spans : List Span) (st : Store)
    → All IsBlank spans
    → ((x : ℕ) → st.next ≤ x → IsBlank (st.cell x))
    → let (st', places) = allocate spans st in IsAllocated st st' places
unfolding allocate update
allocate_lem [] st h k = record { next_le = omega arith; fresh = tt; old = λ x l. refl; new = k }
allocate_lem (s ∷ ss) st h k =
    let st1 : Store = record (update st st.next s) { next = suc st.next } in
    let blank : (x : ℕ) → suc st.next ≤ x → IsBlank (st1.cell x) = λ x l.
      elim (Bool-cases (x == st.next)) [
        | inl same ↦ rw same h.0
        | inr other ↦ rw other (k x (omega arith))
      ] in
    let r = allocate_lem ss st1 h.1 blank in
    record {
      next_le = omega (arith, r.next_le);
      fresh = (
        (omega arith, omega (arith, r.next_le)),
        All-imp (allocate ss st1).1 (λ p q. omega arith) r.fresh,
      );
      old = λ x l. r.old x (omega arith) ∙ ground arith;
      new = λ x l. elim (Bool-cases (x == st.next)) [
        | inl same ↦ subst IsBlank {x = s} (sym (r.old x (ground arith) ∙ rw same)) h.0
        | inr other ↦ r.new x (ground arith)
      ];
    }

-- What attaching new models to a span changes of the links.
pub record IsGrown (near far : Span → List ℕ) (span : ℕ) (st st' : Store) : Type 0 where
  pub next_le : st.next ≤ st'.next
  pub near_old : (x : ℕ) → x < st.next → x ≢ span → near (st'.cell x) ≡ near (st.cell x)
  pub near_new : (x : ℕ) → st.next ≤ x → near (st'.cell x) ≡ []
  pub near_span : All (λ y. (st.next ≤ y) × (y < st'.next)) (near (st'.cell span))
  pub far_old : (x : ℕ) → x < st.next → far (st'.cell x) ≡ far (st.cell x)
  pub far_new :
      (x : ℕ)
      → st.next ≤ x
      → (far (st'.cell x) ≡ []) ⊎ ((x < st'.next) × (far (st'.cell x) ≡ span ∷ []))

module _ (near far : Span → List ℕ) (set_near set_far : ℕ → List ℕ → Store → Store)
    (pair : IsLinkPair near far set_near set_far) where
  -- What the loop over the new models changes: their links to the span, and nothing else.
  adopt_lem :
      (span lo hi : ℕ) (ps : List ℕ) (st : Store)
      → All (λ p. (lo ≤ p) × (p < hi)) ps
      → let st' = adopt set_far span ps st in
        (st'.next ≡ st.next)
        × ((x : ℕ)
            → (near (st'.cell x) ≡ near (st.cell x))
              × ((far (st'.cell x) ≡ far (st.cell x))
                  ⊎ ((lo ≤ x) × (x < hi) × (far (st'.cell x) ≡ span ∷ []))))
  unfolding adopt
  adopt_lem span lo hi [] st h = (refl, λ x. (refl, inl refl))
  adopt_lem span lo hi (p ∷ ps) st h =
      let st1 = set_far p (span ∷ []) st in
      let (next, rest) = adopt_lem span lo hi ps st1 h.1 in
      (
        next ∙ pair.far_next p (span ∷ []) st,
        λ x. (
          (rest x).0 ∙ pair.near-set_far p (span ∷ []) st x,
          elim (rest x).1 [
            | inr set ↦ inr set
            | inl same ↦ elim (Bool-cases (x == p)) [
              | inl here ↦
                  inr (
                    ground arith,
                    ground arith,
                    same ∙ pair.far-set_far p (span ∷ []) st x ∙ rw here,
                  )
              | inr elsewhere ↦ inl (same ∙ pair.far-set_far p (span ∷ []) st x ∙ rw elsewhere)
            ]
          ],
        ),
      )

  pub attach_lem :
      (span : ℕ) (spans : List Span) (st : Store)
      → span < st.next
      → All IsBlank spans
      → ((x : ℕ) → st.next ≤ x → IsBlank (st.cell x))
      → IsGrown near far span st (attach set_near set_far span spans st)
  unfolding attach
  attach_lem span spans st l h k =
      let (st1, places) = allocate spans st in
      let r = allocate_lem spans st h k in
      let sorted = sort_spans_by_begin_time st1 places in
      let fresh : All (λ p. (st.next ≤ p) × (p < st1.next)) sorted =
        unfold sort_spans_by_begin_time in
        All-sort (λ p. (st1.cell p).begin) (λ p. (st.next ≤ p) × (p < st1.next)) places r.fresh in
      let (next, cells) = adopt_lem span st.next st1.next sorted st1 fresh in
      let st2 = adopt set_far span sorted st1 in
      let next' : (set_near span sorted st2).next ≡ st1.next =
        pair.near_next span sorted st2 ∙ next in
      let blank = λ (x : ℕ) (m : st.next ≤ x). pair.blank (st1.cell x) (r.new x m) in
      let set = pair.near-set_near span sorted st2 in
      let kept = pair.far-set_near span sorted st2 in
      record {
        next_le = rw next' r.next_le;
        near_old = λ x m ne.
            set x
            ∙ only_at span x sorted (near (st2.cell x)) ne
            ∙ (cells x).0
            ∙ ap near (r.old x m);
        near_new = λ x m.
            set x
            ∙ only_at span x sorted (near (st2.cell x)) (λ e. absurd (omega arith))
            ∙ (cells x).0
            ∙ (blank x m).0;
        near_span = rw (set span, ==_refl span, next') fresh;
        far_old = λ x m. kept x ∙ elim (cells x).1 [
          | inl same ↦ same ∙ ap far (r.old x m)
          | inr (le, _, _) ↦ absurd (omega arith)
        ];
        far_new = λ x m. elim (cells x).1 [
          | inl same ↦ inl (kept x ∙ same ∙ (blank x m).1)
          | inr (_, lt, e) ↦ inr (rw next' lt, kept x ∙ e)
        ];
      }
    where
      only_at : (span x : ℕ) (v w : List ℕ) → x ≢ span → (if x == span then v else w) ≡ w
      only_at span x v w ne = ground arith

parse-IsBlank : (json : WireSpan) → IsBlank (parse json)
unfolding parse
parse-IsBlank json = (no_parents (object_or json.p []), refl)
  where
    no_parents : (ps : List Text) → object_or (fresh_parents ps) [] ≡ []
    no_parents [] = refl
    no_parents (p ∷ ps) = refl

parse_all-IsBlank : (jsons : List WireSpan) → All IsBlank (parse_all jsons)
parse_all-IsBlank [] = tt
parse_all-IsBlank (json ∷ jsons) = (parse-IsBlank json, parse_all-IsBlank jsons)

FirstFailure-ne-parsed :
    (cs : List AjaxCall) (r : Parsed) (spans : List Span) → FirstFailure cs r → r ≢ parsed spans
FirstFailure-ne-parsed [] r spans f e = absurd f
FirstFailure-ne-parsed (c ∷ cs) r spans (inl (_, q)) e = cc
FirstFailure-ne-parsed (c ∷ cs) r spans (inr (inl (_, _, q))) e = cc
FirstFailure-ne-parsed (c ∷ cs) r spans (inr (inr (_, f))) e = FirstFailure-ne-parsed cs r spans f e

parsed_inj : {xs ys : List Span} → parsed xs ≡ parsed ys → xs ≡ ys
parsed_inj h = cc

-- Spans that were read have no links.
pub parsed-IsBlank :
    (calls : List AjaxCall) (spans : List Span)
    → parse_multi_span_ajax_query_results calls ≡ parsed spans
    → All IsBlank spans
parsed-IsBlank calls spans h = elim (parse_multi_lem calls) [
  | inl (jsons, _, q) ↦
      subst (All IsBlank) {x = parse_all jsons} (parsed_inj (sym q ∙ h)) (parse_all-IsBlank jsons)
  | inr f ↦ absurd (FirstFailure-ne-parsed calls _ spans f h)
]
