-- ===== src/Kyc/Reviews.antt =====
-- Submitting, approving and rejecting are steps of the cycle.
use auction_platform_backend.Prelude.{
  ℕ, ◌≡◌, ◌∙◌, sym, ◌⊎◌, inl, inr, not, any, Option, some, arith,
}
use Prim.Native.String.{String}
use auction_platform_backend.Outcome.{
  ok, Outcome, done, failed, thrown, kyc_not_found, already_seller, user_not_found,
  unexpected_error,
}
use auction_platform_backend.Outcome.Post.{Post}
use auction_platform_backend.Outcome.World.{
  after-Post, after-attempted, after-guarded, after-required, after-settled, after-unwrap,
  after-caught,
}
use auction_platform_backend.Users.{UserAccount, is_active, is_seller}
use auction_platform_backend.Kyc.{
  Kyc, KycStatus, pending, approved, rejected, not_submitted, KycFor, for_seller, KycPlatform,
  submit_kyc, approve_kyc, reject_kyc, try_submit, submit, try_approve, approve, reject,
}
use auction_platform_backend.Kyc.Cycle.{
  Step, submits, approves, rejects, CycleLaws, Tells, Fine, Owned, kept, here, found-Post,
  saved_last,
}

submit_of :
    (x x' : Kyc) → submit_kyc x ≡ ok x' → (x.kyc_status ≡ not_submitted) × (x'.kyc_status ≡ pending)
unfolding submit_kyc
submit_of x x' h = ground arith

approve_of :
    (x x' : Kyc) → approve_kyc x ≡ ok x' → (x.kyc_status ≡ pending) × (x'.kyc_status ≡ approved)
unfolding approve_kyc
approve_of x x' h = ground arith

reject_of :
    (r : Option String) (x x' : Kyc)
    → reject_kyc r x ≡ ok x'
    → (x.kyc_status ≡ pending) × (x'.kyc_status ≡ rejected)
unfolding reject_kyc
reject_of r x x' h = ground arith

same_owner :
    (x x' : Kyc)
    → (submit_kyc x ≡ ok x') ⊎ (approve_kyc x ≡ ok x')
    → (x'.user_id ≡ x.user_id) × (x'.kyc_for ≡ x.kyc_for)
unfolding submit_kyc approve_kyc
same_owner x x' (inl h) = ground arith
same_owner x x' (inr h) = ground arith

same_rejected :
    (r : Option String) (x x' : Kyc)
    → reject_kyc r x ≡ ok x'
    → (x'.user_id ≡ x.user_id) × (x'.kyc_for ≡ x.kyc_for)
unfolding reject_kyc
same_rejected r x x' h = ground arith

module _ {W : Type 0} (d : KycPlatform W) (view : W → Option KycStatus) (u : ℕ) (f : KycFor)
    (laws : CycleLaws d view u f) (s : Option KycStatus) where
  open d use {generate_id, find_by_user_id_and_for, save_kyc, save_document, accounts}

  may_submit :
      (x x' : Kyc)
      → Owned d view u f laws s x
      → submit_kyc x ≡ ok x'
      → x'.user_id ≡ u
      → x'.kyc_for ≡ f
      → Step s (some x'.kyc_status)
  may_submit x x' own h i g =
      let (same, for) = same_owner x x' (inl h) in
      let (was, now) = submit_of x x' h in rw (own (sym same ∙ i) (sym for ∙ g), was, now) submits

  may_approve :
      (x x' : Kyc)
      → Owned d view u f laws s x
      → approve_kyc x ≡ ok x'
      → x'.user_id ≡ u
      → x'.kyc_for ≡ f
      → Step s (some x'.kyc_status)
  may_approve x x' own h i g =
      let (same, for) = same_owner x x' (inr h) in
      let (was, now) = approve_of x x' h in rw (own (sym same ∙ i) (sym for ∙ g), was, now) approves

  may_reject :
      (r : Option String) (x x' : Kyc)
      → Owned d view u f laws s x
      → reject_kyc r x ≡ ok x'
      → x'.user_id ≡ u
      → x'.kyc_for ≡ f
      → Step s (some x'.kyc_status)
  may_reject r x x' own h i g =
      let (same, for) = same_rejected r x x' h in
      let (was, now) = reject_of r x x' h in rw (own (sym same ∙ i) (sym for ∙ g), was, now) rejects

  pub submit-Step :
      (i : ℕ) (g : KycFor) (w : W) → view w ≡ s → Fine d view u f laws s (submit d i g w).1
  unfolding submit try_submit
  submit-Step i g w e =
      after-caught (Fine d view u f laws s) (try_submit d i g w) unexpected_error (
        after-Post (Fine d view u f laws s) (λ o w'. (view w' ≡ s) × Tells d view u f i g s o)
          (find_by_user_id_and_for i g w) _ (found-Post d view u f laws s i g w e)
          (λ o w1 (e1, tells).
            after-unwrap (Fine d view u f laws s) o w1 _ (here d view u f laws s w1 e1) (λ x q.
              after-settled (Fine d view u f laws s) (submit_kyc x) w1 _
                (here d view u f laws s w1 e1)
                (λ x' h.
                  saved_last d view u f laws s x'.kyc_status x' w1
                    (may_submit x x' (rw q at tells) h) (here d view u f laws s w1 e1)))))

  pub reject-Step :
      (i : ℕ) (r : Option String) (w : W) → view w ≡ s → Fine d view u f laws s (reject d i r w).1
  unfolding reject
  reject-Step i r w e =
      after-Post (Fine d view u f laws s)
        (λ o w'. (view w' ≡ s) × Tells d view u f i for_seller s o)
        (find_by_user_id_and_for i for_seller w) _ (found-Post d view u f laws s i for_seller w e)
        (λ o w1 (e1, tells).
          after-required (Fine d view u f laws s) o kyc_not_found w1 _
            (here d view u f laws s w1 e1)
            (λ x q.
              after-settled (Fine d view u f laws s) (reject_kyc r x) w1 _
                (here d view u f laws s w1 e1)
                (λ x' h.
                  saved_last d view u f laws s tt x' w1 (may_reject r x x' (rw q at tells) h)
                    (here d view u f laws s w1 e1))))

  pub approve-Step : (i : ℕ) (w : W) → view w ≡ s → Fine d view u f laws s (approve d i w).1
  unfolding approve try_approve
  approve-Step i w e = after-caught (Fine d view u f laws s) (try_approve d i w) unexpected_error (
      after-Post (Fine d view u f laws s) (λ a w'. view w' ≡ s) (accounts.find_by_id i w) _
        (steady (accounts.find_by_id i w) (laws.account_keeps i w ∙ e))
        (λ a w1 e1.
          after-guarded (Fine d view u f laws s) (not (is_active a.status)) user_not_found w1 _
            (here d view u f laws s w1 e1)
            (λ live.
              after-guarded (Fine d view u f laws s) (any is_seller a.roles) already_seller w1 _
                (here d view u f laws s w1 e1)
                (λ new.
                  after-Post (Fine d view u f laws s)
                    (λ o w'. (view w' ≡ s) × Tells d view u f i for_seller s o)
                    (find_by_user_id_and_for i for_seller w1) _
                    (found-Post d view u f laws s i for_seller w1 e1)
                    (λ o w2 (e2, tells).
                      after-required (Fine d view u f laws s) o kyc_not_found w2 _
                        (here d view u f laws s w2 e2)
                        (λ x q.
                          after-settled (Fine d view u f laws s) (approve_kyc x) w2 _
                            (here d view u f laws s w2 e2)
                            (λ x' h.
                              after-attempted (Fine d view u f laws s) (accounts.save _ w2) _
                                (kept d view u f laws s (accounts.save _) w2
                                  (laws.save_account_keeps _) (here d view u f laws s w2 e2))
                                (λ y w3 h3.
                                  saved_last d view u f laws s tt x' w3
                                    (may_approve x x' (rw q at tells) h) h3))))))))
    where
      steady :
          (r : Outcome UserAccount × W)
          → view r.1 ≡ s
          → Post (λ a w'. view w' ≡ s) (Fine d view u f laws s) r
      steady (done x, w') q = q
      steady (failed x, w') q = here d view u f laws s w' q
      steady (thrown, w') q = here d view u f laws s w' q
