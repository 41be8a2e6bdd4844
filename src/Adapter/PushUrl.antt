-- ===== src/Adapter/PushUrl.antt =====
-- AdapterService.cpp: the URL in which a stream server asks whether a push is allowed.
use vm.Prelude.{
  ℕ, suc, ◌+◌, ◌≡◌, refl, false, Option, none, some, [], ◌∷◌, ◌++◌, arith, length, take, drop,
  nat_beq, All, take-append, drop-append,
}
use vm.Prelude.Text.{Text, codes, find_text, starts_with, starts_with_self}
use vm.Adapter.Server.{TcpServer}
use vm.Adapter.Control.{server_check_push}

infixl 5 ◌>>=◌
abbrev pub ◌>>=◌ : {A B : Type 0} → Option A → (A → Option B) → Option B
none >>= f = none
some a >>= f = f a

-- The text before the pattern and the text after it.
unfoldable pub split_at : Text → Text → Option (Text × Text)
split_at p s = elim (find_text p s) [
  | none ↦ none
  | some i ↦ some (take i s, drop (i + length p) s)
]

-- `CheckPushParser`: the ids of the client and the camera, and the key.
unfoldable pub check_push_parser : Text → Option (Text × Text × Text)
check_push_parser src = do
  (before, tmp) ← split_at (codes "cmsid=") src
  (cmsid, tmp') ← split_at (codes "&devid=") tmp
  (devid, key) ← split_at (codes "&key=") tmp'
  some (cmsid, devid, key)

-- `HandlePushCheck`, after the request is parsed: `none` where it does not parse.
unfoldable pub handle_push_check : Option Text → TcpServer → Text
handle_push_check none srv = codes "1"
handle_push_check (some url) srv = elim (check_push_parser url) [
  | none ↦ codes "1"
  | some (cmsid, devid, key) ↦ server_check_push cmsid devid key srv
]

abbrev pub Without : ℕ → Text → Type 0
Without c s = All (λ d. nat_beq c d ≡ false) s

no_early_cmsid :
    (x : ℕ) (u r : Text)
    → Without b'=' (x ∷ u)
    → starts_with (codes "cmsid=") (x ∷ u ++ (codes "cmsid=" ++ r)) ≡ false
unfolding starts_with
no_early_cmsid x [] r w = ground arith
no_early_cmsid x (a ∷ []) r w = ground arith
no_early_cmsid x (a ∷ b ∷ []) r w = ground arith
no_early_cmsid x (a ∷ b ∷ c ∷ []) r w = ground arith
no_early_cmsid x (a ∷ b ∷ c ∷ d ∷ []) r w = ground arith
no_early_cmsid x (a ∷ b ∷ c ∷ d ∷ e ∷ u) r w = ground arith

find_text-cmsid :
    (u r : Text)
    → Without b'=' u
    → find_text (codes "cmsid=") (u ++ (codes "cmsid=" ++ r)) ≡ some (length u)
unfolding find_text starts_with
find_text-cmsid [] r w = refl
find_text-cmsid (x ∷ u) r w =
    rw (no_early_cmsid x u r w, find_text) (rw (find_text-cmsid u r w.1) refl)

-- A pattern that begins with a character that the text before it does not have.
find_text-after :
    (c : ℕ) (p s r : Text) → Without c s → find_text (c ∷ p) (s ++ ((c ∷ p) ++ r)) ≡ some (length s)
unfolding find_text starts_with
find_text-after c p [] r w = rw (starts_with_self (c ∷ p) r) refl
find_text-after c p (x ∷ s) r w = rw w.0 (rw (find_text-after c p s r w.1) refl)

split_at-after :
    (p s r : Text)
    → find_text p (s ++ (p ++ r)) ≡ some (length s)
    → split_at p (s ++ (p ++ r)) ≡ some (s, r)
unfolding split_at
split_at-after p s r e =
    let before = take-append s (p ++ r) in
    let after : drop (length s + length p) (s ++ (p ++ r)) ≡ r = drop-append_twice s p r in
    rw (e, split_at) (rw (before, after) refl)
  where
    drop-append_twice : (s p r : Text) → drop (length s + length p) (s ++ (p ++ r)) ≡ r
    drop-append_twice [] p r =
        let e : 0 + length p ≡ length p = omega arith in rw e (drop-append p r)
    drop-append_twice (x ∷ s) p r =
        let e : suc (length s) + length p ≡ suc (length s + length p) = omega arith in
        rw e (drop-append_twice s p r)

-- The URL of a push, with the ids and the key that it carries.
abbrev pub push_url : Text → Text → Text → Text → Text
push_url base cmsid devid key =
    base ++ (codes "cmsid=" ++ (cmsid ++ (codes "&devid=" ++ (devid ++ (codes "&key=" ++ key)))))

-- A URL is read back into the ids and the key that it was made of, if its beginning has no '=' and
-- the ids have no '&'. The key may be any text.
pub check_push_parser-push_url :
    (base cmsid devid key : Text)
    → Without b'=' base
    → Without b'&' cmsid
    → Without b'&' devid
    → check_push_parser (push_url base cmsid devid key) ≡ some (cmsid, devid, key)
unfolding check_push_parser
check_push_parser-push_url base cmsid devid key b c d =
    let rest = devid ++ (codes "&key=" ++ key) in
    let tail = cmsid ++ (codes "&devid=" ++ rest) in
    rw
      (
        split_at-after (codes "cmsid=") base tail (find_text-cmsid base tail b),
        split_at-after (codes "&devid=") cmsid rest
            (find_text-after b'&' (codes "devid=") cmsid rest c),
        split_at-after (codes "&key=") devid key (find_text-after b'&' (codes "key=") devid key d),
      )
      refl
