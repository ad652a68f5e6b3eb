-- ===== src/Comments/Posts.antt =====
-- A post of the network is stored once.
use social_listening_backend.Lists.Count.{count-pos_of_Has, find-eq-none, count-zero, count-append}
use social_listening_backend.Store.Rules.{Runs-create, Runs-find_first}
use social_listening_backend.Exec.Runs.{Runs-pure, Runs-bind, Runs}
use social_listening_backend.Schema.{SocialPost}
use social_listening_backend.Lists.{count}
use social_listening_backend.Comments.{
  remake_post_data, save_post, post_or_new, find_post, find_or_save_post,
}
use social_listening_backend.Store.{social_post_model, Store, Client}
use social_listening_backend.Base.{refl, ==_iff, [], ◌∷◌, arith, ◌≢◌, ◌≡◌, ◌≤◌, ◌==◌, ℕ}

-- How many rows a post of the network has.
abbrev pub rows_of : ℕ → Store → ℕ
rows_of post s = count (λ (p : SocialPost). p.post_id == post) s.social_posts

module _ (prisma : Client) where
  -- Where a post of the network has at most one row, it has exactly one once the row for a comment
  -- has been looked up or stored, and the other posts have as many as before; the row that is
  -- returned is of the post. Where this fails nothing has changed.
  pub find_or_save_post-once :
      (post tab : ℕ) (s : Store)
      → rows_of post s ≤ 1
      → Runs
          (λ p t.
            (p.post_id ≡ post)
            × (rows_of post t ≡ 1)
            × ((other : ℕ) → other ≢ post → rows_of other t ≡ rows_of other s))
          (λ _ t. t ≡ record s { calls = t.calls })
          (find_or_save_post prisma post tab s)
  unfolding find_or_save_post find_post post_or_new save_post
  find_or_save_post-once post tab s once = Runs-bind _ _ s (
      Runs-find_first (social_post_model prisma) s (λ p. p.post_id == post)
        (λ free.
          Runs-create (social_post_model prisma) _ (remake_post_data post tab)
            (λ k _. (
              refl,
              ground (
                arith,
                count-append (λ (p : SocialPost). p.post_id == post) s.social_posts
                    (remake_post_data post tab k ∷ []),
                count-zero (λ (p : SocialPost). p.post_id == post) s.social_posts
                    (find-eq-none (λ (p : SocialPost). p.post_id == post) s.social_posts free),
              ),
              λ other differs. ground (
                arith,
                count-append (λ (p : SocialPost). p.post_id == other) s.social_posts
                    (remake_post_data post tab k ∷ []),
              ),
            ))
            (λ _. refl))
        (λ p has at. Runs-pure p _ (
          (==_iff p.post_id post).0 at,
          omega (
            arith,
            once,
            count-pos_of_Has (λ (p : SocialPost). p.post_id == post) p s.social_posts has at,
          ),
          λ _ _. refl,
        ))
        (λ _. refl))
