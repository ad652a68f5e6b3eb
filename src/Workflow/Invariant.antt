-- ===== src/Workflow/Invariant.antt =====
-- The invariant of the table of workflows, and that each change of the table keeps it.
use mathlib.Core.Path.{subst}
use social_listening_backend.Base.{
  ℕ, String, ◌≤◌, ◌≡◌, ◌≢◌, refl, ap, ◌==◌, ==_iff, eq_iff, inl, inr, ◌&&◌, str_eq, Bool, true,
  false, List, [], ◌∷◌, ◌++◌, map, arith, if◌then◌else◌, Bool-cases,
}
use social_listening_backend.Lists.{Has, update_where, count, All}
use social_listening_backend.Lists.Count.{
  count-append, count_mono, count-zero, count-map, All-of_All, All-mono, unique_of_count,
}
use social_listening_backend.Schema.{Workflow}
use social_listening_backend.Workflow.Records.{
  WorkflowDto, new_workflow, edited, set_active, removed,
}
use social_listening_backend.Workflow.Activation.{activated, deactivated}

abbrev pub is_active_of : String → Workflow → Bool
is_active_of type w = w.is_active && str_eq w.type type

-- No identifier stands twice, and each type has at most one active workflow.
pub record IsValid (ws : List Workflow) : Type 0 where
  pub ids : (k : ℕ) → count (λ w. w.id == k) ws ≤ 1
  pub active : (type : String) → count (is_active_of type) ws ≤ 1

-- A change that keeps the identifier and makes a workflow active in a type only if it was.
module _ (f : Workflow → Workflow) (same_id : (w : Workflow) → (f w).id ≡ w.id) where
  ids-map :
      (ws : List Workflow)
      → ((k : ℕ) → count (λ w. w.id == k) ws ≤ 1)
      → (k : ℕ) → count (λ w. w.id == k) (map f ws) ≤ 1
  ids-map ws h k = rw (count-map (λ w. w.id == k) f ws) (
      omega (
        arith,
        h k,
        count_mono (λ w. (f w).id == k) (λ w. w.id == k) ws
            (All-of_All _ ws (λ w e. ground (arith, same_id w))),
      ))

  map-IsValid :
      (ws : List Workflow)
      → All (λ w. (type : String) → is_active_of type (f w) ≡ true → is_active_of type w ≡ true) ws
      → IsValid ws
      → IsValid (map f ws)
  map-IsValid ws weaker v = record {
    ids = ids-map ws v.ids;
    active = λ type. rw (count-map (is_active_of type) f ws) (
        omega (
          arith,
          v.active type,
          count_mono (λ w. is_active_of type (f w)) (is_active_of type) ws
              (All-mono _ _ ws (λ w h. h type) weaker),
        ));
  }

pub deactivated-IsValid :
    (type : String) (ws : List Workflow) → IsValid ws → IsValid (map (deactivated type) ws)
deactivated-IsValid type ws =
    map-IsValid (deactivated type) (λ w. ground arith) ws (All-of_All _ ws (λ w t e. ground arith))

pub set_active-IsValid :
    (id : ℕ) (ws : List Workflow)
    → IsValid ws
    → IsValid (update_where (λ w. w.id == id) (set_active false) ws)
set_active-IsValid id ws =
    map-IsValid (λ w. if w.id == id then set_active false w else w) (λ w. ground arith) ws
      (All-of_All _ ws (λ w t e. ground arith))

pub removed-IsValid :
    (id : ℕ) (ws : List Workflow) → IsValid ws → IsValid (update_where (λ w. w.id == id) removed ws)
removed-IsValid id ws =
    map-IsValid (λ w. if w.id == id then removed w else w) (λ w. ground arith) ws
      (All-of_All _ ws (λ w t e. ground arith))

-- An edit keeps the invariant where the type stays what it was.
pub edited-IsValid :
    (id : ℕ) (dto : WorkflowDto) (ws : List Workflow)
    → All (λ w. w.id ≡ id → w.type ≡ dto.type) ws
    → IsValid ws
    → IsValid (update_where (λ w. w.id == id) (edited dto) ws)
edited-IsValid id dto ws same =
    map-IsValid (λ w. if w.id == id then edited dto w else w) (λ w. ground arith) ws
      (All-mono _ _ ws
        (λ w h t e. elim (Bool-cases (w.id == id)) [
          | inl at ↦ rw (h ((==_iff w.id id).0 at)) (rw at at e)
          | inr off ↦ rw off at e
        ])
        same)

pub created-IsValid :
    (dto : WorkflowDto) (k : ℕ) (ws : List Workflow)
    → All (λ w. w.id ≢ k) ws
    → IsValid ws
    → IsValid (ws ++ new_workflow dto k ∷ [])
created-IsValid dto k ws fresh v = record {
  ids = λ j.
      rw (count-append (λ w. w.id == j) ws (new_workflow dto k ∷ [])) (elim (Bool-cases (k == j)) [
        | inl e ↦ rw e (
            omega
              (arith, count-zero (λ w. w.id == j) ws (All-mono _ _ ws (λ w n. ground arith) fresh)))
        | inr e ↦ rw e (omega (arith, v.ids j))
      ]);
  active = λ type.
      rw (count-append (is_active_of type) ws (new_workflow dto k ∷ []))
        (omega (arith, v.active type));
}

same_type :
    (id : ℕ) (type : String) (w x : Workflow)
    → str_eq w.type type ≡ true
    → is_active_of type (activated id w.type x) ≡ true
    → (x.id == id) ≡ true
same_type id type w x same h =
    let e : w.type ≡ type = (eq_iff w.type type).0 same in
    elim (Bool-cases (x.id == id)) [
      | inl at ↦ at
      | inr off ↦ ground (arith, subst (λ t. is_active_of type (activated id t x) ≡ true) e h)
    ]

other_type :
    (id : ℕ) (type : String) (w x : Workflow)
    → str_eq w.type type ≡ false
    → ((x.id == id) ≡ true → x ≡ w)
    → is_active_of type (activated id w.type x) ≡ true
    → is_active_of type x ≡ true
other_type id type w x other one h = elim (Bool-cases (x.id == id)) [
  | inl at ↦ absurd (ground (arith, ap (λ (y : Workflow). str_eq y.type type) (one at)))
  | inr off ↦ ground arith
]

-- Activating one workflow makes it the only active one of its type.
pub activated-IsValid :
    (id : ℕ) (w : Workflow) (ws : List Workflow)
    → Has w ws
    → w.id ≡ id
    → IsValid ws
    → IsValid (map (activated id w.type) ws)
activated-IsValid id w ws has named v = record {
  ids = ids-map (activated id w.type) (λ w. refl) ws v.ids;
  active = λ type.
      rw (count-map (is_active_of type) (activated id w.type) ws)
        (elim (Bool-cases (str_eq w.type type)) [
          | inl same ↦ omega (
            arith,
            v.ids id,
            count_mono _ (λ x. x.id == id) ws (All-of_All _ ws (λ x. same_type id type w x same)),
          )
          | inr other ↦ omega (
            arith,
            v.active type,
            count_mono _ (is_active_of type) ws (
                All-mono _ _ ws (λ x. other_type id type w x other)
                  (unique_of_count (λ x. x.id == id) w ws has (ground arith) (v.ids id))),
          )
        ]);
}
