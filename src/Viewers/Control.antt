-- ===== src/Viewers/Control.antt =====
-- Who has control, what the list of viewers shows, and how control passes on.
use kvm_switcher.Prelude.{
  ℕ, suc, ◌≡◌, ◌≢◌, refl, ap, sym, ◌∙◌, ◌⊎◌, inl, inr, String, true, false, Option, none, some,
  List, [], ◌∷◌, ◌==◌, string_eq, if◌then◌else◌, lookup, insert, lookup-erase, contains,
  remove_first, length, is_some, length-keys, contains-keys, Distinct, beq_iff, arith, Option-cases,
}
use kvm_switcher.Viewers.{
  Registry, Viewer, new_viewer, ControlRequest, add, remove, request_control, on_timeout, list,
  list_from, count, has_control, accept_control_request, deny_control_request, release_control,
  next_viewer, first_or_nobody,
}
use kvm_switcher.Viewers.Invariant.{
  Call, adds, requests, removes, times_out, releases, accepts, denies, step, Inv,
}

abbrev pub ids_of : List Viewer → List String
ids_of [] = []
ids_of (v ∷ vs) = v.id ∷ ids_of vs

-- How many of the listed viewers are shown with control.
abbrev pub controllers : List Viewer → ℕ
controllers [] = 0
controllers (v ∷ vs) = if v.has_control then suc (controllers vs) else controllers vs

module _ (r : Registry) where
  length-list_from :
      (ids : List String)
      → ((id : String) → contains id ids ≡ true → is_some (lookup id r.viewers) ≡ true)
      → length (list_from r ids) ≡ length ids
  unfolding list_from contains
  length-list_from [] h = refl
  length-list_from (x ∷ ids) h = elim (Option-cases (lookup x r.viewers)) [
    | inl e ↦ absurd (ground (arith, h x, beq_iff x x))
    | inr (v, e) ↦
        ground (arith, length-list_from ids (λ id k. h id (ground (arith, beq_iff x id))))
  ]

  -- Nobody that is missing from the rest of the order is shown with control there.
  controllers-absent :
      (ids : List String) → contains r.controller ids ≡ false → controllers (list_from r ids) ≡ 0
  unfolding list_from contains
  controllers-absent [] h = refl
  controllers-absent (x ∷ ids) h = elim (Option-cases (lookup x r.viewers)) [
    | inl e ↦ ground (arith, controllers-absent ids)
    | inr (v, e) ↦ ground (arith, controllers-absent ids)
  ]

  controllers-list_from :
      (ids : List String)
      → Distinct ids
      → ((id : String) → contains id ids ≡ true → is_some (lookup id r.viewers) ≡ true)
      → controllers (list_from r ids) ≡ (if contains r.controller ids then 1 else 0)
  unfolding list_from contains
  controllers-list_from [] d h = refl
  controllers-list_from (x ∷ ids) d h = elim (Option-cases (lookup x r.viewers)) [
    | inl e ↦ absurd (ground (arith, h x, beq_iff x x))
    | inr (v, e) ↦ ground (
      arith,
      beq_iff x r.controller,
      controllers-absent ids,
      controllers-list_from ids d.1 (λ id k. h id (ground (arith, beq_iff x id))),
    )
  ]

-- In every registry that the invariant holds of, the list shows as many viewers as are connected,
-- and exactly one of them with control, or none when there is no controller.
pub list-controllers :
    (r : Registry)
    → Inv r
    → (length (list r) ≡ count r) × (controllers (list r) ≡ (if r.controller == "" then 0 else 1))
unfolding list count
list-controllers r v =
    let known : (id : String) → contains id r.order ≡ true → is_some (lookup id r.viewers) ≡ true =
      λ id k. sym (contains-keys id r.viewers) ∙ (ap (contains id) v.keyed ∙ k) in
    (
      length-list_from r r.order known ∙ (sym (ap length v.keyed) ∙ length-keys r.viewers),
      ground (
        arith,
        controllers-list_from r r.order v.distinct known,
        beq_iff r.controller "",
        v.controlled,
        v.named,
      ),
    )

abbrev requester : Option ControlRequest → Option String
requester none = none
requester (some q) = some q.requester_id

-- The calls that may give control to `b`, and when.
abbrev pub MayGive : Registry → String → Call → Type 0
MayGive r b (adds id name ip now) = (r.controller ≡ "") × (b ≡ id)
MayGive r b (requests id seconds now) = ⊥
MayGive r b (removes id) = (r.controller ≡ id) × (b ≡ first_or_nobody (remove_first id r.order))
MayGive r b (times_out id) = (b ≡ id) × (requester r.pending ≡ some id)
MayGive r b (releases id) = (r.controller ≡ id) × (b ≡ next_viewer id r.order)
MayGive r b accepts = requester r.pending ≡ some b
MayGive r b denies = ⊥

-- A call that changes the controller is one of: a viewer joins while nobody has control; the
-- controller leaves, and the first in the remaining order follows; the controller releases, and the
-- first other viewer follows; the pending request is accepted, or times out, and its requester
-- follows. No request and no denial by itself moves control.
pub step-MayGive :
    (r : Registry) (c : Call)
    → (step r c).controller ≢ r.controller
    → MayGive r (step r c).controller c
unfolding step add remove request_control on_timeout accept_control_request deny_control_request
    release_control
step-MayGive r (adds id name ip now) h = ground (arith, beq_iff r.controller "")
step-MayGive r (requests id seconds now) h = ground arith
step-MayGive r (removes id) h = ground (arith, beq_iff r.controller id)
step-MayGive r (times_out id) h = elim (Option-cases r.pending) [
  | inl e ↦ ground arith
  | inr (q, e) ↦ ground (arith, beq_iff q.requester_id id)
]
step-MayGive r (releases id) h = ground (arith, beq_iff r.controller id)
step-MayGive r accepts h = elim (Option-cases r.pending) [
  | inl e ↦ ground arith
  | inr (q, e) ↦ ground arith
]
step-MayGive r denies h = ground arith

first_cases : (xs : List String) → (xs ≡ []) ⊎ (contains (first_or_nobody xs) xs ≡ true)
unfolding contains
first_cases [] = inl refl
first_cases (x ∷ xs) = inr (ground (arith, beq_iff x x))

next_viewer-other :
    (id j : String) (xs : List String)
    → id ≢ j
    → contains j xs ≡ true
    → (next_viewer id xs ≢ id) × (contains (next_viewer id xs) xs ≡ true)
unfolding next_viewer contains
next_viewer-other id j [] h k = ground arith
next_viewer-other id j (x ∷ xs) h k =
    ground (arith, beq_iff x id, beq_iff x j, beq_iff x x, next_viewer-other id j xs h)

-- When the controller releases control while another viewer is connected, it loses control, and a
-- connected viewer gets it.
pub release_control-passes :
    (r : Registry) (id j : String)
    → r.controller ≡ id
    → contains j r.order ≡ true
    → id ≢ j
    → (has_control id (release_control id r) ≡ false)
      × (contains (release_control id r).controller r.order ≡ true)
unfolding release_control has_control
release_control-passes r id j c k h = ground (
  arith,
  beq_iff r.controller id,
  beq_iff (next_viewer id r.order) id,
  next_viewer-other id j r.order h k,
)

-- A controlling viewer that leaves hands control to the viewer that has been connected longest of
-- those that stay; nobody has control afterwards only when nobody stays.
pub remove_hands_over :
    (r : Registry) (id : String)
    → r.controller ≡ id
    → ((remove id r).controller ≡ first_or_nobody (remove id r).order)
      × (((remove id r).order ≡ [])
          ⊎ (contains (remove id r).controller (remove id r).order ≡ true))
unfolding remove
remove_hands_over r id e =
    ground (arith, beq_iff r.controller id, first_cases (remove_first id r.order))

-- The registry trusts the names it is given. If a second connection joins under the name of the
-- only viewer, who has control, and one of the two leaves, then that name still has control while
-- the registry does not know it and lists nobody.
pub remove-add_same :
    (r : Registry) (id name ip : String) (now : ℕ)
    → r.controller ≡ id
    → id ≢ ""
    → r.order ≡ id ∷ []
    → let s = remove id (add id name ip now r) in
      (has_control id s ≡ true) × (lookup id s.viewers ≡ none) × (list s ≡ [])
unfolding add remove has_control list list_from remove_first
remove-add_same r id name ip now e h o = ground (
  arith,
  beq_iff id id,
  beq_iff r.controller id,
  beq_iff r.controller "",
  lookup-erase id id (insert id (new_viewer id name ip now) r.viewers),
)
