-- ===== src/Social/Pages.antt =====
-- The sender that stands for the page of a tab, as the hot queue and the dashboard look it up.
use social_listening_backend.Base.{ℕ, ◌≡◌, refl, ◌==◌, true, Option, none, some, arith}
use social_listening_backend.Lists.{find, Has}
use social_listening_backend.Exec.{Error, Exec, ◌>>=◌}
use social_listening_backend.Exec.Runs.{
  Runs, Runs-bind, Runs-pure, Runs-non_null, Runs-non_null-none, Runs-non_null-some,
}
use social_listening_backend.Async.{technical_issue}
use social_listening_backend.Async.Rules.{Runs-technical}
use social_listening_backend.Schema.{SocialTab, SocialNetwork, PageInfo, SocialSender}
use social_listening_backend.Social.Lookups.{
  page_sender, get_social_tab_info, with_network, page_info, find_sender,
}
use social_listening_backend.Store.{
  Store, Client, social_tab_model, social_network_model, social_sender_model,
}
use social_listening_backend.Store.Rules.{Runs-find_first}

-- Nothing but the count of calls has changed.
abbrev pub OnlyRead : Store → Store → Type 0
OnlyRead s t = t ≡ record s { calls = t.calls }

-- A failure is the technical error, and has changed nothing.
abbrev pub Failed : Store → Error → Store → Type 0
Failed s e t = (e ≡ technical_issue) × OnlyRead s t

-- A sender of the page, or null where there is none.
abbrev pub FoundSender : Store → PageInfo → Option SocialSender → Type 0
FoundSender s page none = find (λ x. x.sender_id == page.id) s.social_senders ≡ none
FoundSender s page (some x) = Has x s.social_senders × ((x.sender_id == page.id) ≡ true)

-- The sender of the page that a tab is connected to.
abbrev pub PageSender : Store → ℕ → Option SocialSender → Type 0
PageSender s tab o =
    (t : SocialTab) × (n : SocialNetwork) × (page : PageInfo) × Has t s.social_tabs
    × (t.id ≡ tab)
    × Has n s.social_networks
    × (n.id ≡ t.social_id)
    × (n.extend_data ≡ some page)
    × FoundSender s page o

module _ (prisma : Client) where
  pub page_sender-PageSender :
      (s : Store) (tab : ℕ) {A : Type 0} {Q : A → Store → Type 0}
      (f : Option SocialSender → Exec Store A)
      → ((o : Option SocialSender) (t : Store)
          → PageSender s tab o
          → OnlyRead s t
          → Runs Q (λ _ t. OnlyRead s t) (f o t))
      → Runs Q (λ _ t. OnlyRead s t) ((page_sender prisma tab >>= f) s)
  unfolding page_sender get_social_tab_info with_network page_info find_sender
  page_sender-PageSender s tab f k = Runs-bind _ _ s (
      Runs-bind _ _ s (
        Runs-technical _ s (
          Runs-bind _ _ s (
            Runs-find_first (social_tab_model prisma) s _
              (λ _. Runs-pure _ _ (Runs-bind _ _ _ (Runs-bind _ _ _ (Runs-non_null-none _ refl))))
              (λ t has p. Runs-bind _ _ _ (
                Runs-find_first (social_network_model prisma) _ _
                  (λ _. Runs-bind _ _ _ (Runs-non_null-none _ refl))
                  (λ n at q. Runs-bind _ _ _ (
                    Runs-non_null-some n _ (
                      Runs-pure _ _ (
                        Runs-bind _ _ _ (
                          Runs-bind _ _ _ (
                            Runs-non_null-some (t, n) _
                              (Runs-non_null n.extend_data _
                                (λ page e. Runs-technical _ _ (
                                  Runs-find_first (social_sender_model prisma) _ _
                                    (λ free.
                                      k none _
                                        (t, n, page, has, ground arith, at, ground arith, e, free)
                                        refl)
                                    (λ x there r.
                                      k (some x) _
                                        (
                                          t,
                                          n,
                                          page,
                                          has,
                                          ground arith,
                                          at,
                                          ground arith,
                                          e,
                                          (there, r),
                                        )
                                        refl)
                                    (λ _. refl)))
                                (λ _. refl))))))))
                  (λ _. refl)))
              (λ _. refl)))))
