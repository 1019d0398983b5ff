-- ===== src/Store/Index/Matching.antt =====
-- The tests of List of pkg/store/index.go on an entry, and what they ask for.
use sealhub.Base.{
  ◌≡◌, ◌≢◌, ◌↔◌, inl, inr, refl, sym, ◌∙◌, true, [], ◌∷◌, Bool-cases, ◌++◌, not, ◌&&◌, Bool, false,
}
use sealhub.Base.Text.{Text, ◌==◌, eq_iff, has_prefix, has_prefix_iff, cut_prefix}
use sealhub.Store.Index.{DocEntry, Table, find, label_value, is_listed}

-- The label of an entry, "" where it has none of that key.
pub data HasLabel (key val : Text) : Table Text → Type 0 where
  missing : val ≡ [] → HasLabel key val []
  here : {j v : Text} {labels : Table Text} → j ≡ key → v ≡ val → HasLabel key val ((j, v) ∷ labels)
  later :
      {j v : Text} {labels : Table Text}
      → j ≢ key
      → HasLabel key val labels
      → HasLabel key val ((j, v) ∷ labels)

-- What is asked of an entry: its path begins with the prefix, and it has the label, unless no key is
-- given.
pub record Matches (prefix label_key label_val : Text) (e : DocEntry) : Type 0 where
  pub begins : (rest : Text) × (e.path ≡ prefix ++ rest)
  pub labelled : label_key ≢ [] → HasLabel label_key label_val e.metadata.labels

label_value-HasLabel :
    (key : Text) (labels : Table Text) → HasLabel key (label_value key labels) labels
unfolding label_value find
label_value-HasLabel key [] = missing refl
label_value-HasLabel key ((j, v) ∷ labels) = elim (Bool-cases (j == key)) [
  | inl e ↦ here ((eq_iff j key).0 e) (rw (e, label_value, find) refl)
  | inr e ↦
      later (λ z. let k = (eq_iff j key).1 z in cc)
        (rw (e, label_value, find) (label_value-HasLabel key labels))
]

HasLabel-label_value :
    (key val : Text) (labels : Table Text) → HasLabel key val labels → label_value key labels ≡ val
unfolding label_value find
HasLabel-label_value key val _ (missing e) = sym e
HasLabel-label_value key val _ (here {j = j} {v = v} {labels = labels} e k) =
    rw ((eq_iff j key).1 e, label_value, find) k
HasLabel-label_value key val _ (later {j = j} {v = v} {labels = labels} n h) =
    elim (Bool-cases (j == key)) [
      | inl e ↦ absurd (n ((eq_iff j key).0 e))
      | inr e ↦ rw (e, label_value, find) (HasLabel-label_value key val labels h)
    ]

prefix_test :
    (prefix p : Text) → not (not (prefix == []) && not (has_prefix p prefix)) ≡ has_prefix p prefix
unfolding ◌==◌ cut_prefix
prefix_test [] p = refl
prefix_test (c ∷ prefix) p = elim (Bool-cases (has_prefix p (c ∷ prefix))) [
  | inl e ↦ rw e refl
  | inr e ↦ rw e refl
]

label_test :
    (key val : Text) (labels : Table Text)
    → (not (not (key == []) && not (label_value key labels == val)) ≡ true)
      ↔ (key ≢ [] → HasLabel key val labels)
label_test key val labels = elim (Bool-cases (key == [])) [
  | inl none_asked ↦
      rw none_asked ((λ h some_key. absurd (some_key ((eq_iff key []).0 none_asked))), (λ h. refl))
  | inr asked ↦
      let given : key ≢ [] = λ z. let k = (eq_iff key []).1 z in cc in
      elim (Bool-cases (label_value key labels == val)) [
        | inl e ↦
            rw (asked, e)
              (
                (λ h k.
                    rw ((eq_iff (label_value key labels) val).0 e) at
                      (label_value-HasLabel key labels)),
                (λ h. refl),
              )
        | inr e ↦
            rw (asked, e)
              (
                (λ h. absurd (let z : false ≡ true = h in cc)),
                (λ h.
                    let z =
                      (eq_iff (label_value key labels) val).1
                        (HasLabel-label_value key val labels (h given)) in
                    cc),
              )
      ]
]

both_iff : (a b : Bool) → (a && b ≡ true) ↔ ((a ≡ true) × (b ≡ true))
both_iff true b = ((λ h. (refl, h)), (λ h. h.1))
both_iff false b = ((λ h. cc), (λ h. cc))

pub is_listed-Matches :
    (prefix label_key label_val : Text) (e : DocEntry)
    → (is_listed prefix label_key label_val e.path e ≡ true) ↔ Matches prefix label_key label_val e
unfolding is_listed
is_listed-Matches prefix label_key label_val e =
    let tests =
      both_iff (not (not (prefix == []) && not (has_prefix e.path prefix))) (
        not
          (not (label_key == []) && not (label_value label_key e.metadata.labels == label_val))) in
    let label = label_test label_key label_val e.metadata.labels in
    let path = has_prefix_iff e.path prefix in
    (
      λ h.
          let (p, l) = tests.0 h in
          record { begins = path.0 (sym (prefix_test prefix e.path) ∙ p); labelled = label.0 l },
      λ m. tests.1 (prefix_test prefix e.path ∙ path.1 m.begins, label.1 m.labelled),
    )
