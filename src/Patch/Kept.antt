-- ===== src/Patch/Kept.antt =====
-- What no PATCH operation changes: the identity of a user and its bookkeeping, and that the user has
-- a name.
pub mod Single
pub mod Enterprise
pub mod Multi
pub mod Apply
use scim_server_impl_go.Base.{
  ◌≡◌, refl, ◌∙◌, false, Result, ok, err, ◌>>=◌, Returns, returned, refused,
}
use scim_server_impl_go.Text.{is_empty}
use scim_server_impl_go.Model.{User}

-- `u` is a user with the identity and bookkeeping of `old`, and with a name if `old` has one.
abbrev pub Kept : User → User → Type 0
Kept old u =
    (u.id ≡ old.id)
    × (u.workspace_id ≡ old.workspace_id)
    × (u.created_at ≡ old.created_at)
    × (u.last_modified ≡ old.last_modified)
    × (u.version ≡ old.version)
    × (is_empty old.user_name ≡ false → is_empty u.user_name ≡ false)

-- Also for an update of `u` that leaves those fields, which computes to the same statement.
pub Kept-refl : (u : User) → Kept u u
Kept-refl u = (refl, refl, refl, refl, refl, λ h. h)

pub Kept-trans : (u v w : User) → Kept u v → Kept v w → Kept u w
Kept-trans u v w p q = (q.0 ∙ p.0, q.1 ∙ p.1, q.2 ∙ p.2, q.3 ∙ p.3, q.4 ∙ p.4, λ h. q.5 (p.5 h))

-- A result that is an update of `old`, if it is one.
abbrev pub Keeps : User → Result User → Type 0
Keeps old = Returns (Kept old)

pub Keeps-bind :
    (u : User) (m : Result User) (f : User → Result User)
    → Keeps u m
    → ((v : User) → Keeps v (f v))
    → Keeps u (m >>= f)
Keeps-bind u m f (returned {a = v} h) k = after v h (k v)
  where
    after : (v : User) {r : Result User} → Kept u v → Keeps v r → Keeps u r
    after v p (returned {a = w} q) = returned (Kept-trans u v w p q)
    after v p refused = refused
Keeps-bind u m f refused k = refused
