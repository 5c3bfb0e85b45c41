-- ===== src/Kyc/Updates.antt =====
-- Storing a document is a step of the cycle.
use auction_platform_backend.Prelude.{
  ℕ, ◌≡◌, ◌∙◌, sym, Bool, true, false, not, Option, none, some, arith, if◌then◌else◌,
}
use auction_platform_backend.Outcome.{
  ok, Outcome, done, failed, thrown, return, attempt, attempted, settle, ◌>>=◌, kyc_entity_error,
  updated_kyc_error, unexpected_error,
}
use auction_platform_backend.Outcome.Post.{Post}
use auction_platform_backend.Outcome.World.{
  after-and_then, after-Post, after-attempted, after-required, after-settled, after-settled_as,
  after-valued, after-caught,
}
use auction_platform_backend.Kyc.{
  Kyc, KycStatus, rejected, not_submitted, KycFor, KycPlatform, DocumentInput, new_kyc,
  reset_for_resubmission, is_rejected, read_again, store_document, open_kyc, reset_if_rejected,
  update_found, try_update, update,
}
use auction_platform_backend.Kyc.Cycle.{
  Step, opens, resets, CycleLaws, Tells, Fine, Owned, kept, here, saved, found-Post, saved_last,
}

reset_of :
    (x x' : Kyc)
    → reset_for_resubmission x ≡ ok x'
    → (x.kyc_status ≡ rejected)
      × (x'.kyc_status ≡ not_submitted)
      × (x'.user_id ≡ x.user_id)
      × (x'.kyc_for ≡ x.kyc_for)
unfolding reset_for_resubmission
reset_of x x' h = ground arith

module _ {W : Type 0} (d : KycPlatform W) (view : W → Option KycStatus) (u : ℕ) (f : KycFor)
    (laws : CycleLaws d view u f) (s : Option KycStatus) where
  open d use {generate_id, find_by_user_id_and_for, save_kyc, save_document, accounts}

  may_reset :
      (x x' : Kyc)
      → Owned d view u f laws s x
      → reset_for_resubmission x ≡ ok x'
      → x'.user_id ≡ u
      → x'.kyc_for ≡ f
      → Step s (some x'.kyc_status)
  may_reset x x' own h i g =
      let (was, now, same, for) = reset_of x x' h in
      rw (own (sym same ∙ i) (sym for ∙ g), was, now) resets

  read_again-Fine :
      (input : DocumentInput) (w : W)
      → Fine d view u f laws s w
      → Fine d view u f laws s (read_again d input w).1
  unfolding read_again
  read_again-Fine input w h =
      after-attempted (Fine d view u f laws s)
        (find_by_user_id_and_for input.user_id input.kyc_for w) _
        (kept d view u f laws s (find_by_user_id_and_for input.user_id input.kyc_for) w
          (laws.find_keeps input.user_id input.kyc_for) h)
        (λ r w1 h1.
          after-valued (Fine d view u f laws s) r w1 _ h1 (λ o q.
            after-required (Fine d view u f laws s) o updated_kyc_error w1 _ h1 (λ x e. h1)))

  fresh : (w : W) → Fine d view u f laws s w → Fine d view u f laws s (generate_id w).1
  fresh w h = rw (laws.id_keeps w) h

  store_document-Fine :
      (input : DocumentInput) (owner : ℕ) (w : W)
      → Fine d view u f laws s w
      → Fine d view u f laws s (store_document d input owner w).1
  unfolding store_document
  store_document-Fine input owner w h =
      let w1 = (generate_id w).1 in
      let w2 = (generate_id w1).1 in
      after-attempted (Fine d view u f laws s) (save_document _ w2) _
        (kept d view u f laws s (save_document _) w2 (laws.document_keeps _) (fresh w1 (fresh w h)))
        (λ y w3 h3. read_again-Fine input w3 h3)

  open_kyc-Fine :
      (input : DocumentInput) (w : W)
      → Tells d view u f input.user_id input.kyc_for s none
      → Fine d view u f laws s w
      → Fine d view u f laws s (open_kyc d input w).1
  unfolding open_kyc
  open_kyc-Fine input w tells h =
      let w1 = (generate_id w).1 in
      let w2 = (generate_id w1).1 in
      let w3 = (generate_id w2).1 in
      after-attempted (Fine d view u f laws s) (save_kyc (new_kyc (generate_id w).0 input) w3) _
        (saved d view u f laws s (new_kyc (generate_id w).0 input) w3 (λ i g. rw (tells i g) opens)
          (fresh w2 (fresh w1 (fresh w h))))
        (λ y w4 h4.
          after-attempted (Fine d view u f laws s) (save_document _ w4) _
            (kept d view u f laws s (save_document _) w4 (laws.document_keeps _) h4)
            (λ z w5 h5. read_again-Fine input w5 h5))

  reset-Fine :
      (x : Kyc) (w : W)
      → Owned d view u f laws s x
      → Fine d view u f laws s w
      → Fine d view u f laws s (reset_if_rejected d x w).1
  unfolding reset_if_rejected
  reset-Fine x w own h = go (not (is_rejected x.kyc_status))
    where
      go :
          (t : Bool)
          → Fine d view u f laws s
              ((if t
                  then return tt
                  else (settle (reset_for_resubmission x) >>= λ x'.
                      attempt (save_kyc x') >>= λ y. return tt))
                w).1
      go true = h
      go false =
          after-settled (Fine d view u f laws s) (reset_for_resubmission x) w _ h
            (λ x' q. saved_last d view u f laws s tt x' w (may_reset x x' own q) h)

  pub update-Step :
      (input : DocumentInput) (w : W) → view w ≡ s → Fine d view u f laws s (update d input w).1
  unfolding update try_update update_found
  update-Step input w e =
      after-caught (Fine d view u f laws s) (try_update d input w) unexpected_error (
        after-Post (Fine d view u f laws s)
          (λ r w'.
            (view w' ≡ s)
            × ((o : Option Kyc) → r ≡ ok o → Tells d view u f input.user_id input.kyc_for s o))
          (attempted (find_by_user_id_and_for input.user_id input.kyc_for w)) _
          (tried (find_by_user_id_and_for input.user_id input.kyc_for w)
            (found-Post d view u f laws s input.user_id input.kyc_for w e)
            (laws.find_keeps input.user_id input.kyc_for w ∙ e))
          (λ r w1 (e1, tells).
            after-settled_as (Fine d view u f laws s) kyc_entity_error r w1 _
              (here d view u f laws s w1 e1)
              (λ o q. found o w1 (tells o q) (here d view u f laws s w1 e1))))
    where
      tried :
          (r : Outcome (Option Kyc) × W)
          → Post
              (λ o w'. (view w' ≡ s) × Tells d view u f input.user_id input.kyc_for s o)
              (Fine d view u f laws s)
              r
          → view r.1 ≡ s
          → Post
              (λ t w'.
                (view w' ≡ s)
                × ((o : Option Kyc) → t ≡ ok o → Tells d view u f input.user_id input.kyc_for s o))
              (Fine d view u f laws s)
              (attempted r)
      tried (done o, w') (q, t) k = (q, λ o' j. let same : o ≡ o' = cc in rw (sym same) t)
      tried (failed x, w') q k = (k, λ o' j. cc)
      tried (thrown, w') q k = q

      found :
          (o : Option Kyc) (w1 : W)
          → Tells d view u f input.user_id input.kyc_for s o
          → Fine d view u f laws s w1
          → Fine d view u f laws s (update_found d input o w1).1
      found none w1 tells h = open_kyc-Fine input w1 tells h
      found (some x) w1 tells h =
          after-and_then (Fine d view u f laws s) (reset_if_rejected d x w1) _
            (reset-Fine x w1 tells h) (λ y w2 h2. store_document-Fine input x.id w2 h2)
