-- ===== src/Categories/Standing.antt =====
-- The standing of a category: how far it is decided, under which slug and by whom.
use auction_platform_backend.Prelude.{
  ℕ, ◌≡◌, ◌≢◌, refl, ◌∙◌, Bool, true, false, Option, none, some, arith,
}
use Prim.Native.String.{String}
use auction_platform_backend.Outcome.{ok}
use auction_platform_backend.Auction.Category.{
  AuctionCategory, AuctionCategoryStatus, pending, rejected, is_approved, pending_category, approve,
  verify, reject, change_active_status, set_name, set_parent_id,
}
use auction_platform_backend.Categories.{
  CategoryInput, is_empty, create_slug, approved_category, after,
}

abbrev pub is_rejected : AuctionCategoryStatus → Bool
is_rejected rejected = true
is_rejected _ = false

abbrev pub has_reason : Option String → Bool
has_reason none = false
has_reason (some s) = true

-- Verified exactly if it is approved, with a reason exactly if it is rejected, under some slug.
pub record IsSound (c : AuctionCategory) : Type 0 where
  pub verified_if_approved : c.is_verified ≡ is_approved c.status
  pub reason_if_rejected : has_reason c.rejection_reason ≡ is_rejected c.status
  pub has_slug : is_empty c.slug ≡ false

-- What stays of a category, whatever else of it changes: a decision is final.
pub record Keeps (c c' : AuctionCategory) : Type 0 where
  pub same_id : c'.id ≡ c.id
  pub same_slug : c'.slug ≡ c.slug
  pub same_submitter : c'.submitted_by ≡ c.submitted_by
  pub sound : IsSound c → IsSound c'
  pub decided : c.status ≢ pending → c'.status ≡ c.status
  pub same_reason : c.status ≢ pending → c'.rejection_reason ≡ c.rejection_reason

-- From what is stored of a category to what is stored later: it stays stored, and a new one is
-- sound.
abbrev pub Follows : Option AuctionCategory → Option AuctionCategory → Type 0
Follows none none = Unit {0}
Follows none (some c) = IsSound c
Follows (some c) none = ⊥
Follows (some c) (some c') = Keeps c c'

pub Keeps-refl : (c : AuctionCategory) → Keeps c c
Keeps-refl c = record {
  same_id = refl;
  same_slug = refl;
  same_submitter = refl;
  sound = λ h. h;
  decided = λ h. refl;
  same_reason = λ h. refl;
}

pub Follows-refl : (s : Option AuctionCategory) → Follows s s
Follows-refl none = tt
Follows-refl (some c) = Keeps-refl c

Keeps-trans : (a b c : AuctionCategory) → Keeps a b → Keeps b c → Keeps a c
Keeps-trans a b c h k = record {
  same_id = k.same_id ∙ h.same_id;
  same_slug = k.same_slug ∙ h.same_slug;
  same_submitter = k.same_submitter ∙ h.same_submitter;
  sound = λ s. k.sound (h.sound s);
  decided = λ n. k.decided (rw (h.decided n) n) ∙ h.decided n;
  same_reason = λ n. k.same_reason (rw (h.decided n) n) ∙ h.same_reason n;
}

pub Follows-trans : (s t v : Option AuctionCategory) → Follows s t → Follows t v → Follows s v
Follows-trans none none v h k = k
Follows-trans none (some b) none h k = absurd k
Follows-trans none (some b) (some c) h k = k.sound h
Follows-trans (some a) none v h k = absurd h
Follows-trans (some a) (some b) none h k = k
Follows-trans (some a) (some b) (some c) h k = Keeps-trans a b c h k

-- The methods of the entity.
pub reject-Keeps : (r : String) (c : AuctionCategory) → Keeps c (after c (reject r c))
unfolding reject
reject-Keeps r c = ground arith

pub approve-Keeps :
    (c c' b : AuctionCategory)
    → verify (after c (approve c)) ≡ ok c'
    → approve c ≡ ok b
    → Keeps c c'
unfolding approve verify
approve-Keeps c c' b h k = ground arith

pub change_active_status-Keeps :
    (active : Bool) (c : AuctionCategory) → Keeps c (change_active_status active c)
unfolding change_active_status
change_active_status-Keeps active c = ground arith

pub set-Keeps :
    (name : String) (parent : Option ℕ) (c : AuctionCategory)
    → Keeps c (set_parent_id parent (set_name name c))
unfolding set_parent_id set_name
set-Keeps name parent c = ground arith

-- A new category has a slug.
pub create_slug-ne_empty : (s slug : String) → create_slug s ≡ ok slug → is_empty slug ≡ false
unfolding create_slug
create_slug-ne_empty s slug h = ground arith

pub approved_category-IsSound :
    (id : ℕ) (slug : String) (input : CategoryInput)
    → is_empty slug ≡ false
    → IsSound (approved_category id slug input)
unfolding approved_category
approved_category-IsSound id slug input h = record {
  verified_if_approved = refl;
  reason_if_rejected = refl;
  has_slug = h;
}

pub pending_category-IsSound :
    (id : ℕ) (name slug : String) (parent : Option ℕ) (user : ℕ)
    → is_empty slug ≡ false
    → IsSound (pending_category id name slug parent user)
unfolding pending_category
pending_category-IsSound id name slug parent user h = record {
  verified_if_approved = refl;
  reason_if_rejected = refl;
  has_slug = h;
}

pub approved_category-id :
    (slug : String) (input : CategoryInput) (id : ℕ) → (approved_category id slug input).id ≡ id
unfolding approved_category
approved_category-id slug input id = refl

pub pending_category-id :
    (id : ℕ) (name slug : String) (parent : Option ℕ) (user : ℕ)
    → (pending_category id name slug parent user).id ≡ id
unfolding pending_category
pending_category-id id name slug parent user = refl
