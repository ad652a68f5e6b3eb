-- ===== src/Messages/Groups.antt =====
-- Each other side of the messages has one conversation, with the first of its messages.
use social_listening_backend.Base.{
  ℕ, ◌≤◌, ◌≡◌, refl, sym, ap, ◌∙◌, ◌==◌, ==_iff, Bool, Bool-cases, Option-cases, true, false, ◌||◌,
  inl, inr, Option, none, some, is_some, List, [], ◌∷◌, ◌++◌, arith, if◌then◌else◌,
}
use social_listening_backend.Lists.{any, find, count}
use social_listening_backend.Lists.Count.{count-append, count-zero, find-eq-none}
use social_listening_backend.Schema.{Message}
use social_listening_backend.Messages.{
  Conversation, other_side, conversation_of, group, conversations,
}

abbrev or_then : Option Conversation → Option Conversation → Option Conversation
or_then none b = b
or_then (some a) b = some a

find-append :
    (p : Conversation → Bool) (xs ys : List Conversation)
    → find p (xs ++ ys) ≡ or_then (find p xs) (find p ys)
find-append p [] ys = refl
find-append p (x ∷ xs) ys = elim (Bool-cases (p x)) [
  | inl h ↦ rw h refl
  | inr h ↦ rw h (find-append p xs ys)
]

-- The conversation of the first message of a user.
abbrev pub first_of : ℕ → ℕ → List Message → Option Conversation
first_of network user [] = none
first_of network user (m ∷ ms) =
    if other_side network m == user
    then some (conversation_of network m)
    else first_of network user ms

-- The keys that were seen are the senders of the result.
abbrev Seen : List ℕ → List Conversation → Type 0
Seen seen result = (u : ℕ) → any (λ k. k == u) seen ≡ is_some (find (λ c. c.sender == u) result)

is_some-or_then : (a b : Option Conversation) → is_some a ≡ true → or_then a b ≡ a
is_some-or_then none b h = absurd (ground arith)
is_some-or_then (some a) b h = refl

is_some-none : (a b : Option Conversation) → is_some a ≡ false → or_then a b ≡ b
is_some-none none b h = refl
is_some-none (some a) b h = absurd (ground arith)

or_then-none : (a : Option Conversation) → or_then a none ≡ a
or_then-none none = refl
or_then-none (some a) = refl

or_then_assoc : (a b c : Option Conversation) → or_then (or_then a b) c ≡ or_then a (or_then b c)
or_then_assoc none b c = refl
or_then_assoc (some a) b c = refl

is_some-or : (a b : Option Conversation) → is_some (or_then a b) ≡ (is_some a || is_some b)
is_some-or none b = refl
is_some-or (some a) b = refl

-- Another conversation, of a key that is new.
Seen-more :
    (network : ℕ) (m : Message) (seen : List ℕ) (result : List Conversation)
    → Seen seen result
    → Seen (other_side network m ∷ seen) (result ++ conversation_of network m ∷ [])
Seen-more network m seen result h u =
    rw
      (
        find-append (λ c. c.sender == u) result (conversation_of network m ∷ []),
        is_some-or (find (λ c. c.sender == u) result)
            (find (λ c. c.sender == u) (conversation_of network m ∷ [])),
        ← h u,
      )
      (elim (Bool-cases (other_side network m == u)) [
        | inl e ↦ ground arith
        | inr e ↦ ground arith
      ])

-- A key that was not seen has no conversation yet.
count-unseen :
    (seen : List ℕ) (result : List Conversation) (u : ℕ)
    → Seen seen result
    → any (λ k. k == u) seen ≡ false
    → count (λ c. c.sender == u) result ≡ 0
count-unseen seen result u h free =
    count-zero (λ c. c.sender == u) result
      (find-eq-none (λ c. c.sender == u) result
        (elim (Option-cases (find (λ c. c.sender == u) result)) [
          | inl e ↦ e
          | inr (c, e) ↦ absurd (ground (arith, h u, ap is_some e))
        ]))

group-count :
    (network : ℕ) (seen : List ℕ) (result : List Conversation) (ms : List Message)
    → Seen seen result
    → ((u : ℕ) → count (λ c. c.sender == u) result ≤ 1)
    → (u : ℕ) → count (λ c. c.sender == u) (group network seen result ms) ≤ 1
unfolding group
group-count network seen result [] h one u = one u
group-count network seen result (m ∷ ms) h one u =
    elim (Bool-cases (any (λ k. k == other_side network m) seen)) [
      | inl e ↦ rw e (group-count network seen result ms h one u)
      | inr e ↦ rw e (
          group-count network (other_side network m ∷ seen)
            (result ++ conversation_of network m ∷ []) ms (Seen-more network m seen result h)
            (λ v.
              rw (count-append (λ c. c.sender == v) result (conversation_of network m ∷ []))
                (elim (Bool-cases (other_side network m == v)) [
                  | inl same ↦
                      let free = count-unseen seen result (other_side network m) h e in
                      rw (← (==_iff (other_side network m) v).0 same) (ground (arith, free))
                  | inr other ↦ ground (arith, one v)
                ]))
            u)
    ]

group-find :
    (network : ℕ) (seen : List ℕ) (result : List Conversation) (ms : List Message)
    → Seen seen result
    → (u : ℕ)
    → find (λ c. c.sender == u) (group network seen result ms)
      ≡ or_then (find (λ c. c.sender == u) result) (first_of network u ms)
unfolding group
group-find network seen result [] h u = sym (or_then-none (find (λ c. c.sender == u) result))
group-find network seen result (m ∷ ms) h u =
    elim (Bool-cases (any (λ k. k == other_side network m) seen)) [
      | inl e ↦
          rw (e, group-find network seen result ms h u)
            (elim (Bool-cases (other_side network m == u)) [
              | inl same ↦
                  let known : is_some (find (λ c. c.sender == u) result) ≡ true =
                    sym (h u)
                    ∙ ap (λ (v : ℕ). any (λ k. k == v) seen)
                        (sym ((==_iff (other_side network m) u).0 same))
                    ∙ e in
                  is_some-or_then _ _ known ∙ sym (is_some-or_then _ _ known)
              | inr other ↦ rw other refl
            ])
      | inr e ↦
          rw
            (
              e,
              group-find network (other_side network m ∷ seen)
                  (result ++ conversation_of network m ∷ []) ms (Seen-more network m seen result h)
                  u,
              find-append (λ c. c.sender == u) result (conversation_of network m ∷ []),
              or_then_assoc (find (λ c. c.sender == u) result)
                  (find (λ c. c.sender == u) (conversation_of network m ∷ []))
                  (first_of network u ms),
            )
            (elim (Bool-cases (other_side network m == u)) [
              | inl same ↦ rw same refl
              | inr other ↦ rw other refl
            ])
    ]

-- Every user that the network exchanged messages with has one conversation, which holds the first
-- of their messages in the list, and no other user has one.
pub conversations-first_of :
    (network : ℕ) (ms : List Message) (u : ℕ)
    → (find (λ c. c.sender == u) (conversations network ms) ≡ first_of network u ms)
      × (count (λ c. c.sender == u) (conversations network ms) ≤ 1)
unfolding conversations
conversations-first_of network ms u = (
  group-find network [] [] ms (λ v. refl) u,
  group-count network [] [] ms (λ v. refl) (λ v. omega arith) u,
)
