-- ===== src/Viewers.antt =====
-- internal/api/viewers.go: the viewers of one KVM session and who of them has input control.
-- The mutex makes each method one step. A method takes the clock's value where the code reads it.
-- A stopped timer is dropped or replaced in the same call, so `Stop` leaves no trace in the state; a
-- callback that has already started when its timer is stopped still runs, so `on_timeout` may come
-- at any point, for any viewer.
pub mod Invariant
pub mod Control
pub mod Newcomer
mod Tests
use kvm_switcher.Prelude.{
  ℕ, String, Bool, true, false, Option, none, some, List, [], ◌∷◌, ◌++◌, ◌==◌, string_eq,
  if◌then◌else◌, lookup, insert, erase, remove_first, length, is_some,
}

pub record Viewer : Type 0 where
  pub id : String
  pub display_name : String
  pub ip : String
  pub has_control : Bool
  pub connected_at : ℕ

pub record ControlRequest : Type 0 where
  pub requester_id : String
  pub requester_name : String
  pub requested_at : ℕ
  pub timeout_sec : ℕ

-- `time.AfterFunc` with the viewer that its callback was made for.
pub record Timer : Type 0 where
  pub for_id : String
  pub seconds : ℕ

-- The empty controller is nobody.
pub record Registry : Type 0 where
  pub viewers : List (String × Viewer)
  pub controller : String
  pub order : List String
  pub pending : Option ControlRequest
  pub timer : Option Timer

unfoldable pub new : Registry
new = record { viewers = []; controller = ""; order = []; pending = none; timer = none }

abbrev pub new_viewer : String → String → String → ℕ → Viewer
new_viewer id name ip now = record {
  id = id;
  display_name = name;
  ip = ip;
  has_control = false;
  connected_at = now;
}

unfoldable pub add : String → String → String → ℕ → Registry → Registry
add id name ip now r = record r {
  viewers = insert id (new_viewer id name ip now) r.viewers;
  order = r.order ++ id ∷ [];
  controller = if r.controller == "" then id else r.controller;
}

abbrev pub first_or_nobody : List String → String
first_or_nobody [] = ""
first_or_nobody (x ∷ xs) = x

unfoldable pub remove : String → Registry → Registry
remove id r = record r {
  viewers = erase id r.viewers;
  order = rest;
  controller = if r.controller == id then first_or_nobody rest else r.controller;
}
  where
    rest : List String
    rest = remove_first id r.order

-- The loop of `List` over the connection order.
unfoldable pub list_from : Registry → List String → List Viewer
list_from r [] = []
list_from r (id ∷ ids) = elim (lookup id r.viewers) [
  | none ↦ list_from r ids
  | some v ↦ record v { has_control = id == r.controller } ∷ list_from r ids
]

unfoldable pub list : Registry → List Viewer
list r = list_from r r.order

unfoldable pub request_control : String → ℕ → ℕ → Registry → Registry × Bool
request_control id timeout_sec now r = elim (lookup id r.viewers) [
  | none ↦ (r, false)
  | some v ↦ if r.controller == id then (r, false) else (
    record r {
      pending = some (record {
        requester_id = id;
        requester_name = v.display_name;
        requested_at = now;
        timeout_sec = timeout_sec;
      });
      timer = some (record { for_id = id; seconds = timeout_sec });
    },
    true,
  )
]

-- The callback of the timer that was started for `id`.
unfoldable pub on_timeout : String → Registry → Registry
on_timeout id r = elim r.pending [
  | none ↦ r
  | some q ↦
      if q.requester_id == id
      then record r {
        controller = if is_some (lookup id r.viewers) then id else r.controller;
        pending = none;
      }
      else r
]

unfoldable pub accept_control_request : Registry → Registry × Bool
accept_control_request r = elim r.pending [
  | none ↦ (r, false)
  | some q ↦
      if is_some (lookup q.requester_id r.viewers)
      then (record r { controller = q.requester_id; pending = none; timer = none }, true)
      else (record r { pending = none }, false)
]

unfoldable pub deny_control_request : Registry → Registry
deny_control_request r = record r { pending = none; timer = none }

unfoldable pub pending_request : Registry → Option ControlRequest
pending_request r = r.pending

-- The loop of `ReleaseControl`: the first viewer in the order that is not `id`.
unfoldable pub next_viewer : String → List String → String
next_viewer id [] = ""
next_viewer id (x ∷ xs) = if x == id then next_viewer id xs else x

unfoldable pub release_control : String → Registry → Registry
release_control id r =
    if r.controller == id then record r { controller = next_viewer id r.order } else r

unfoldable pub has_control : String → Registry → Bool
has_control id r = r.controller == id

unfoldable pub count : Registry → ℕ
count r = length r.viewers
