-- ===== src/Bulk/Deferred/Split.antt =====
-- internal/handler/bulk.go: how `extractDeferredGroupMembers` divides the members.
use scim_server_impl_go.Base.{
  String, none, some, ◌≡◌, ◌⊎◌, inl, inr, refl, sym, ◌∙◌, false≢true, Bool-cases,
}
use scim_server_impl_go.Text.{Text, text, same}
use scim_server_impl_go.Value.{Value, null, arr, Items, nil, cons, Fields, end, field, find, index}
use scim_server_impl_go.Bulk.Graph.{Producers}
use scim_server_impl_go.Bulk.Deferred.Waits.{
  Waits, is_deferred_member-Waits, Waits-is_deferred_member,
}
use scim_server_impl_go.Bulk.Deferred.{
  is_deferred_member, immediate_members, deferred_members, replace_member, after_split,
  extract_deferred_group_members,
}

-- The elements of a list, each in one of two others that keep their order: in the second one exactly
-- where `P` holds.
pub data SplitBy (P : Value → Type 0) : Items → Items → Items → Type 0 where
  no_elements : SplitBy P nil nil nil
  now :
      {v : Value} {vs is ds : Items}
      → ¬ P v
      → SplitBy P vs is ds
      → SplitBy P (cons v vs) (cons v is) ds
  later :
      {v : Value} {vs is ds : Items}
      → P v
      → SplitBy P vs is ds
      → SplitBy P (cons v vs) is (cons v ds)

members-SplitBy :
    (producers : Producers) (self : Text) (vs : Items)
    → SplitBy
        (Waits producers self)
        vs
        (immediate_members producers self vs)
        (deferred_members producers self vs)
unfolding immediate_members deferred_members
members-SplitBy producers self nil = no_elements
members-SplitBy producers self (cons v vs) =
    let rest = members-SplitBy producers self vs in
    elim (Bool-cases (is_deferred_member producers self v)) [
      | inl e ↦
          rw (e, immediate_members, deferred_members)
            (later (is_deferred_member-Waits producers self v e) rest)
      | inr e ↦
          rw (e, immediate_members, deferred_members)
            (now (λ w. absurd (false≢true (sym e ∙ Waits-is_deferred_member producers self v w)))
              rest)
    ]

-- where nothing is left for later, everything is done now
all_now : {P : Value → Type 0} (vs is : Items) → SplitBy P vs is nil → SplitBy P vs vs nil
all_now nil nil no_elements = no_elements
all_now nil (cons v is) s = elim s [ ]
all_now (cons v vs) nil s = elim s [ ]
all_now (cons v vs) (cons v' is) (now e s) = now e (all_now vs is s)

find-replace_member :
    (key : String) (w : Value) (m : Fields)
    → (find key m ≡ none) ⊎ (find key (replace_member (text key) w m) ≡ some w)
unfolding find replace_member
find-replace_member key w end = inl refl
find-replace_member key w (field k v m) = elim (Bool-cases (same k (text key))) [
  | inl e ↦ inr (rw (e, find, replace_member) (rw (e, find) refl))
  | inr e ↦ elim (find-replace_member key w m) [
    | inl missing ↦ inl (rw (e, find) missing)
    | inr found ↦ inr (rw (e, find, replace_member) (rw (e, find) found))
  ]
]

index-replace_member :
    (key : String) (w : Value) (vs : Items) (m : Fields)
    → index key m ≡ arr vs
    → index key (replace_member (text key) w m) ≡ w
unfolding index
index-replace_member key w vs m h = elim (find-replace_member key w m) [
  | inl missing ↦ (let impossible : null ≡ arr vs = rw (missing, index) at h in cc)
  | inr found ↦ rw (found, index) refl
]

-- For the data of a group with a list of members: the members that the group is created with and those
-- that are given back to wait are together the members of the request, in their order, and a member waits
-- exactly if it is an object whose `value` is `bulkId:` and a bulkId, not empty and not the one of the
-- operation itself, that the map of the producers declares.
pub extract_deferred_group_members-SplitBy :
    (producers : Producers) (self : Text) (payload : Fields) (vs : Items)
    → index "members" payload ≡ arr vs
    → (is : Items) × (index "members" (extract_deferred_group_members producers self payload).0
        ≡ arr is)
      × SplitBy
          (Waits producers self)
          vs
          is
          (extract_deferred_group_members producers self payload).1
unfolding extract_deferred_group_members after_split
extract_deferred_group_members-SplitBy producers self payload vs h =
    rw (h, extract_deferred_group_members)
      (go (deferred_members producers self vs) (members-SplitBy producers self vs))
  where
    go :
        (ds : Items)
        → SplitBy (Waits producers self) vs (immediate_members producers self vs) ds
        → (is : Items) × (index "members" (after_split producers self payload vs ds).0 ≡ arr is)
          × SplitBy (Waits producers self) vs is (after_split producers self payload vs ds).1
    go nil s = (vs, h, all_now vs _ s)
    go (cons d ds) s =
        (immediate_members producers self vs, index-replace_member "members" _ vs payload h, s)
