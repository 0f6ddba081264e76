-- ===== src/Domain/Merge/Unique.antt =====
-- internal/domain/validation.go: `validateSubscriptionMergeRules` against the lists of the keys that
-- the nodes of all inputs have.
use mathlib.Core.List.{append-nil, append_assoc}
use sbox_manager.Common.{
  Bool, Fresh, Fresh-append, List, Option-cases, String, [], append-eq-nil, append3-eq-nil, arith,
  eq_iff, false, get, if◌then◌else◌, inl, inr, is_blank, known, known-put, known-put_old, put_all,
  put_all-append, refl, suc, true, ℕ, ◌++◌, ◌<>◌, ◌==◌, ◌||◌, ◌↔◌, ◌∷◌, ◌≡◌,
}
use sbox_manager.Domain.Issues.{ValidationErrors}
use sbox_manager.Domain.Merge.{
  Seen, duplicate, merge_inputs, merge_node, merge_nodes, nodes_of, note, pair_eq, seen_none,
  validate_merge_rules,
}
use sbox_manager.Domain.Models.{SubscriptionInput, SubscriptionNode}

abbrev or_none {ℓ} : {K : Type ℓ} → Bool → K → List K
or_none blank key = if blank then [] else key ∷ []

-- The ids that are not blank, the tags that are not blank, and the pairs of a user and a remark
-- neither of which is blank.
abbrev pub ids_of : List SubscriptionNode → List String
ids_of [] = []
ids_of (n ∷ ns) = or_none (is_blank n.id) n.id ++ ids_of ns

abbrev pub tags_of : List SubscriptionNode → List String
tags_of [] = []
tags_of (n ∷ ns) = or_none (is_blank n.tag) n.tag ++ tags_of ns

abbrev pub remarks_of : List SubscriptionNode → List (String × String)
remarks_of [] = []
remarks_of (n ∷ ns) =
    or_none (is_blank n.user || is_blank n.remark) (n.user, n.remark) ++ remarks_of ns

ids_of-append : (ns ms : List SubscriptionNode) → ids_of (ns ++ ms) ≡ ids_of ns ++ ids_of ms
ids_of-append [] ms = refl
ids_of-append (n ∷ ns) ms = rw (ids_of-append ns ms, append_assoc)

tags_of-append : (ns ms : List SubscriptionNode) → tags_of (ns ++ ms) ≡ tags_of ns ++ tags_of ms
tags_of-append [] ms = refl
tags_of-append (n ∷ ns) ms = rw (tags_of-append ns ms, append_assoc)

remarks_of-append :
    (ns ms : List SubscriptionNode) → remarks_of (ns ++ ms) ≡ remarks_of ns ++ remarks_of ms
remarks_of-append [] ms = refl
remarks_of-append (n ∷ ns) ms = rw (remarks_of-append ns ms, append_assoc)

abbrev pub all_nodes : List SubscriptionInput → List SubscriptionNode
all_nodes [] = []
all_nodes (i ∷ is) = nodes_of i ++ all_nodes is

-- What one map says: its issues, the keys put in, and the map before and after.
record Notes {ℓ} {K : Type ℓ} (eq : K → K → Bool) (m : List (K × String)) (ks : List K)
    (e : ValidationErrors) (m' : List (K × String)) : Type ℓ where
  fresh : e ≡ [] → Fresh eq ks (known eq m)
  quiet : Fresh eq ks (known eq m) → e ≡ []
  after : known eq m' ≡ put_all eq ks (known eq m)

module _ {ℓ} {K : Type ℓ} (eq : K → K → Bool) (exact : (a b : K) → eq a b ≡ true → a ≡ b) where
  Notes-one :
      (m : List (K × String)) (key : K) (path where' format : String) (blank : Bool)
      → Notes eq m
          (or_none blank key)
          (duplicate path format blank (get eq key m))
          (note key where' blank (get eq key m) m)
  unfolding duplicate note
  Notes-one m key path where' format true = elim (Option-cases (get eq key m)) [
    | inl e ↦ rw (e, duplicate, note) (record { fresh = λ h. tt; quiet = λ h. refl; after = refl })
    | inr (p, e) ↦
        rw (e, duplicate, note) (record { fresh = λ h. tt; quiet = λ h. refl; after = refl })
  ]
  Notes-one m key path where' format false = elim (Option-cases (get eq key m)) [
    | inl e ↦
        rw (e, duplicate, note)
          (record { fresh = λ h. (rw e, tt); quiet = λ h. refl; after = known-put eq m key where' })
    | inr (p, e) ↦
        rw (e, duplicate, note)
          (record {
            fresh = λ h. cc;
            quiet = λ h. cc (h.0, e);
            after = known-put_old eq exact m key (rw e);
          })
  ]

  Notes-append :
      (m m' m'' : List (K × String)) (ks ls : List K) (e e' : ValidationErrors)
      → Notes eq m ks e m'
      → Notes eq m' ls e' m''
      → Notes eq m (ks ++ ls) (e ++ e') m''
  Notes-append m m' m'' ks ls e e' a b = record {
    fresh = λ h.
        let (hr, hs) = append-eq-nil e e' h in
        (Fresh-append eq ks ls (known eq m)).1 (a.fresh hr, rw a.after at (b.fresh hs));
    quiet = λ h.
        let (hp, hq) = (Fresh-append eq ks ls (known eq m)).0 h in
        rw (a.quiet hp, b.quiet (rw a.after hq));
    after = rw (b.after, a.after, put_all-append eq ks ls (known eq m));
  }

pair_eq→eq : (a b : String × String) → pair_eq a b ≡ true → a ≡ b
pair_eq→eq (a, b) (c, d) h = ground (arith, eq_iff a c, eq_iff b d)

text_eq→eq : (a b : String) → (a == b) ≡ true → a ≡ b
text_eq→eq a b = (eq_iff a b).0

-- A run of the loops: its issues are those of the three maps, in some order.
record Merges (seen : Seen) (ns : List SubscriptionNode) (r : ValidationErrors × Seen)
    : Type 0 where
  id_issues : ValidationErrors
  tag_issues : ValidationErrors
  remark_issues : ValidationErrors
  ids : Notes ◌==◌ seen.ids (ids_of ns) id_issues r.1.ids
  tags : Notes ◌==◌ seen.tags (tags_of ns) tag_issues r.1.tags
  remarks : Notes pair_eq seen.remarks (remarks_of ns) remark_issues r.1.remarks
  parts : r.0 ≡ [] → (id_issues ≡ []) × (tag_issues ≡ []) × (remark_issues ≡ [])
  whole : id_issues ≡ [] → tag_issues ≡ [] → remark_issues ≡ [] → r.0 ≡ []

Merges-none : (seen : Seen) → Merges seen [] ([], seen)
Merges-none seen = record {
  id_issues = [];
  tag_issues = [];
  remark_issues = [];
  ids = record { fresh = λ h. tt; quiet = λ h. refl; after = refl };
  tags = record { fresh = λ h. tt; quiet = λ h. refl; after = refl };
  remarks = record { fresh = λ h. tt; quiet = λ h. refl; after = refl };
  parts = λ h. (refl, refl, refl);
  whole = λ a b c. refl;
}

merge_node-Merges :
    (path : String) (seen : Seen) (n : SubscriptionNode)
    → Merges seen (n ∷ []) (merge_node path seen n)
unfolding merge_node
merge_node-Merges path seen n =
    let skip = is_blank n.user || is_blank n.remark in
    let id =
      Notes-one ◌==◌ text_eq→eq seen.ids n.id (path <> ".id") path
        "duplicate node id, already used at %s" (is_blank n.id) in
    let tag =
      Notes-one ◌==◌ text_eq→eq seen.tags n.tag (path <> ".tag") path
        "duplicate node tag, already used at %s" (is_blank n.tag) in
    let remark =
      Notes-one pair_eq pair_eq→eq seen.remarks (n.user, n.remark) (path <> ".remark") path
        "duplicate subscription remark under the same user, already used at %s" skip in
    record {
      id_issues =
          duplicate (path <> ".id") "duplicate node id, already used at %s" (is_blank n.id)
            (get ◌==◌ n.id seen.ids);
      tag_issues =
          duplicate (path <> ".tag") "duplicate node tag, already used at %s" (is_blank n.tag)
            (get ◌==◌ n.tag seen.tags);
      remark_issues =
          duplicate (path <> ".remark")
            "duplicate subscription remark under the same user, already used at %s" skip
            (get pair_eq (n.user, n.remark) seen.remarks);
      ids = rw append-nil id;
      tags = rw append-nil tag;
      remarks = rw append-nil remark;
      parts = append3-eq-nil _ _ _;
      whole = λ a b c. rw (a, b, c);
    }

Merges-append :
    (seen : Seen) (ns ms : List SubscriptionNode) (r s : ValidationErrors × Seen)
    → Merges seen ns r
    → Merges r.1 ms s
    → Merges seen (ns ++ ms) (r.0 ++ s.0, s.1)
Merges-append seen ns ms r s a b = record {
  id_issues = a.id_issues ++ b.id_issues;
  tag_issues = a.tag_issues ++ b.tag_issues;
  remark_issues = a.remark_issues ++ b.remark_issues;
  ids = rw (ids_of-append ns ms) (Notes-append ◌==◌ text_eq→eq _ _ _ _ _ _ _ a.ids b.ids);
  tags = rw (tags_of-append ns ms) (Notes-append ◌==◌ text_eq→eq _ _ _ _ _ _ _ a.tags b.tags);
  remarks =
      rw (remarks_of-append ns ms)
        (Notes-append pair_eq pair_eq→eq _ _ _ _ _ _ _ a.remarks b.remarks);
  parts = λ h.
      let (hr, hs) = append-eq-nil r.0 s.0 h in
      let (i, t, m) = a.parts hr in
      let (i', t', m') = b.parts hs in (rw (i, i'), rw (t, t'), rw (m, m'));
  whole = λ hi ht hm.
      let (i, i') = append-eq-nil _ _ hi in
      let (t, t') = append-eq-nil _ _ ht in
      let (m, m') = append-eq-nil _ _ hm in rw (a.whole i t m, b.whole i' t' m');
}

merge_nodes-Merges :
    (i j : ℕ) (seen : Seen) (ns : List SubscriptionNode) → Merges seen ns (merge_nodes i j seen ns)
unfolding merge_nodes
merge_nodes-Merges i j seen [] = Merges-none seen
merge_nodes-Merges i j seen (n ∷ ns) =
    Merges-append seen (n ∷ []) ns _ _ (merge_node-Merges _ seen n)
      (merge_nodes-Merges i (suc j) _ ns)

merge_inputs-Merges :
    (i : ℕ) (seen : Seen) (is : List SubscriptionInput)
    → Merges seen (all_nodes is) (merge_inputs i seen is)
unfolding merge_inputs
merge_inputs-Merges i seen [] = Merges-none seen
merge_inputs-Merges i seen (input ∷ is) =
    Merges-append seen (nodes_of input) (all_nodes is) _ _
      (merge_nodes-Merges i 0 seen (nodes_of input)) (merge_inputs-Merges (suc i) _ is)

abbrev pub is_new {ℓ} : {K : Type ℓ} → K → Bool
is_new key = false

-- `validateSubscriptionMergeRules` reports nothing exactly when, over the nodes of all inputs, no
-- non-blank id and no non-blank tag stands twice, and no pair of a user and a remark, neither of them
-- blank, stands twice; what is blank may stand any number of times.
pub validate_merge_rules-eq-nil_iff :
    (inputs : List SubscriptionInput)
    → (validate_merge_rules inputs ≡ []) ↔ (
        Fresh ◌==◌ (ids_of (all_nodes inputs)) is_new
        × Fresh ◌==◌ (tags_of (all_nodes inputs)) is_new
        × Fresh pair_eq (remarks_of (all_nodes inputs)) is_new)
unfolding validate_merge_rules
validate_merge_rules-eq-nil_iff inputs =
    let m = merge_inputs-Merges 0 seen_none inputs in
    (
      λ h. let (i, t, r) = m.parts h in (m.ids.fresh i, m.tags.fresh t, m.remarks.fresh r),
      λ h. m.whole (m.ids.quiet h.0) (m.tags.quiet h.1) (m.remarks.quiet h.2),
    )
