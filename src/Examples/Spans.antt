-- ===== src/Examples/Spans.antt =====
-- Spans in JSON and their families.
use incubator_htrace.Prelude.{
  some_inj, ℕ, zero, text_eq, ap, ◌≡◌, ◌≢◌, refl, true, false, none, some, List, [], ◌∷◌, inl, inr,
  All, Any, Text, text, arith, suc,
}
use incubator_htrace.Prelude.Int.{ℤ, pos, ◌≤ℤ◌}
use incubator_htrace.Tree.{tree_height, traverse_pre, traverse_post}
use incubator_htrace.Tree.Rose.{Rose, root, height, preorder, postorder, visit_all, IsTreeOf}
use incubator_htrace.Tree.Growth.{IsRanked, traversals_terminate}
use incubator_htrace.Span.{invalid_span_id, WireSpan, Span, parse, unparse}
use incubator_htrace.Span.Wire.{IsFresh, parse-unparse, IsCanonical, unparse-parse}
use incubator_htrace.Span.Extent.{
  begin_of, end_of, get_earliest_begin, get_latest_end, reached, get_earliest_begin_lem,
  get_latest_end_lem,
}
use incubator_htrace.Examples.Data.{span_id, store, family_1}

abbrev fresh : Span
fresh = record {
  span_id = span_id;
  tracer_id = text "NameNode";
  parents = span_id ∷ [];
  description = text "getFileInfo";
  begin = pos 1441134000000;
  end = pos 1441134000500;
  time_annotations =
      record { t = pos 3; m = text "start" } ∷ record { t = pos 8; m = text "end" } ∷ [];
  info_annotations = [];
  selected = false;
  reified_children = none;
  reified_parents = none;
}

fresh-IsFresh : IsFresh fresh
fresh-IsFresh = record {
  identified = λ e. cc;
  begin_nonneg = omega arith;
  end_nonneg = omega arith;
  ordered = ((omega arith, tt), (tt, tt));
  unselected = refl;
  no_children = refl;
  parents_unread = refl;
}

parse-unparse_example : parse (unparse fresh) ≡ fresh
parse-unparse_example = parse-unparse fresh fresh-IsFresh

span_id_valid : span_id ≢ invalid_span_id
span_id_valid e = let h : false ≡ true = ap (λ (s : Text). text_eq s invalid_span_id) e in cc

abbrev json : WireSpan
json = record {
  a = some span_id;
  r = none;
  p = none;
  d = some (text "getFileInfo");
  b = some (pos 20);
  e = none;
  t = some (record { t = pos 3; m = text "start" } ∷ record { t = pos 8; m = text "end" } ∷ []);
  n = none;
}

json-IsCanonical : IsCanonical json
json-IsCanonical = record {
  a_given = ((λ e. cc), (λ e. span_id_valid (some_inj e)));
  r_given = λ e. cc;
  p_given = λ e. cc;
  d_given = λ e. cc;
  b_positive = inr refl;
  e_positive = inl refl;
  t_given = λ e. cc;
  t_ordered = ((omega arith, tt), (tt, tt));
  n_given = λ e. cc;
}

unparse-parse_example : unparse (parse json) ≡ json
unparse-parse_example = unparse-parse json json-IsCanonical

-- JSON with an empty description, the id that is not valid, and annotations out of order.
abbrev loose : WireSpan
loose = record json {
  a = none;
  d = some [];
  t = some (record { t = pos 8; m = text "end" } ∷ record { t = pos 3; m = text "start" } ∷ []);
}

-- A node has the number below it as its descendant, twice.
abbrev below : ℕ → List ℕ
below zero = []
below (suc n) = n ∷ n ∷ []

below-IsRanked : IsRanked below (λ n. n)
below-IsRanked zero = tt
below-IsRanked (suc n) = (omega arith, (omega arith, tt))

traversals_terminate_example :
    (t : Rose ℕ) × (root t ≡ 2)
    × IsTreeOf below t
    × (tree_height below 3 2 ≡ some (height t))
    × (traverse_pre below (λ n d s. n ∷ s) 3 2 0 []
        ≡ some (visit_all (λ n d s. n ∷ s) (preorder t 0) []))
    × (traverse_post below (λ n d s. n ∷ s) 3 2 0 []
        ≡ some (visit_all (λ n d s. n ∷ s) (postorder t 0) []))
traversals_terminate_example =
    traversals_terminate below (λ n d s. n ∷ s) (λ n. n) 2 3 0 [] below-IsRanked (omega arith)

get_earliest_begin_lem_example :
    (e : ℤ) × (get_earliest_begin store 3 1 ≡ some e)
    × All (λ v. e ≤ℤ begin_of store v.0) (reached family_1)
    × Any (λ v. e ≡ begin_of store v.0) (reached family_1)
get_earliest_begin_lem_example =
    get_earliest_begin_lem store 1 family_1 3 (omega arith) (omega arith)

get_latest_end_lem_example :
    (e : ℤ) × (get_latest_end store 3 1 ≡ some e)
    × All (λ v. end_of store v.0 ≤ℤ e) (reached family_1)
    × Any (λ v. e ≡ end_of store v.0) (reached family_1)
get_latest_end_lem_example = get_latest_end_lem store 1 family_1 3 (omega arith) (omega arith)
