-- ===== src/Network/Server/Count.antt =====
-- The descriptors in the list for `poll`, and the keys of `sessions`, in src/TCPServer.cpp.
use lumen_engine.Prelude.{
  ℕ, zero, suc, ◌+◌, ◌-◌, ◌<◌, ◌≡◌, ◌⊎◌, inl, inr, refl, sym, ap, ◌∙◌, Bool, true, false,
  Bool-cases, Option, none, some, List, [], ◌∷◌, ◌++◌, if◌then◌else◌, arith, length, get_or, set,
  length-set, ℤ, ◌==ℤ◌, ==ℤ_iff,
}
use lumen_engine.Network.Session.{ClientSession}
use lumen_engine.Network.Kernel.{Pollfd, no_pollfd, open_fds, last_pollfd, drop_last, remove_pollfd}
use lumen_engine.Network.Sessions.{Sessions, find_session, put_session, erase_session}
use lumen_engine.Network.Server.Respond.{find-put_session}

abbrev pub bit : Bool → ℕ
bit true = 1
bit false = 0

-- How often a descriptor stands in the list.
abbrev pub count : ℤ → List ℤ → ℕ
count fd [] = 0
count fd (x ∷ xs) = bit (x ==ℤ fd) + count fd xs

abbrev pub is_some : Option ClientSession → Bool
is_some none = false
is_some (some s) = true

abbrev pub has_session : ℤ → Sessions → Bool
has_session fd sessions = is_some (find_session fd sessions)

pub count-append :
    (fd : ℤ) (l : List Pollfd) (p : Pollfd)
    → count fd (open_fds (l ++ (p ∷ []))) ≡ count fd (open_fds l) + bit (p.fd ==ℤ fd)
count-append fd [] p = omega arith
count-append fd (q ∷ l) p = omega (arith, count-append fd l p)

count-set :
    (fd : ℤ) (l : List Pollfd) (i : ℕ) (p : Pollfd)
    → i < length l
    → count fd (open_fds (set l i p)) + bit ((get_or l i no_pollfd).fd ==ℤ fd)
      ≡ count fd (open_fds l) + bit (p.fd ==ℤ fd)
count-set fd [] i p h = elim h [ ]
count-set fd (q ∷ l) zero p h = omega arith
count-set fd (q ∷ l) (suc i) p h = omega (arith, count-set fd l i p (omega arith))

count-drop_last :
    (fd : ℤ) (p : Pollfd) (l : List Pollfd)
    → count fd (open_fds (drop_last (p ∷ l))) + bit ((last_pollfd (p ∷ l)).fd ==ℤ fd)
      ≡ count fd (open_fds (p ∷ l))
unfolding drop_last last_pollfd
count-drop_last fd p [] = omega arith
count-drop_last fd p (q ∷ l) = omega (arith, count-drop_last fd q l)

last_pollfd-cons :
    (p : Pollfd) (l : List Pollfd) → 0 < length l → last_pollfd (p ∷ l) ≡ last_pollfd l
unfolding last_pollfd
last_pollfd-cons p [] h = elim h [ ]
last_pollfd-cons p (q ∷ l) h = refl

last-set :
    (p : Pollfd) (l : List Pollfd) (i : ℕ)
    → last_pollfd (set (p ∷ l) i (last_pollfd (p ∷ l))) ≡ last_pollfd (p ∷ l)
unfolding last_pollfd
last-set p [] zero = refl
last-set p [] (suc i) = refl
last-set p (q ∷ l) zero = refl
last-set p (q ∷ l) (suc i) =
    last_pollfd-cons p (set (q ∷ l) i (last_pollfd (q ∷ l)))
      (omega (arith, length-set (q ∷ l) i (last_pollfd (q ∷ l))))
    ∙ last-set q l i

length-drop_last : (l : List Pollfd) → length (drop_last l) ≡ length l - 1
unfolding drop_last
length-drop_last [] = omega arith
length-drop_last (p ∷ []) = omega arith
length-drop_last (p ∷ q ∷ l) = omega (arith, length-drop_last (q ∷ l))

pub length-remove_pollfd : (l : List Pollfd) (i : ℕ) → length (remove_pollfd l i) ≡ length l - 1
unfolding remove_pollfd
length-remove_pollfd l i =
    length-drop_last (set l i (last_pollfd l)) ∙ ap (λ n. n - 1) (length-set l i (last_pollfd l))

head-drop_last :
    (p : Pollfd) (l : List Pollfd) → 0 < length l → get_or (drop_last (p ∷ l)) 0 no_pollfd ≡ p
unfolding drop_last
head-drop_last p [] h = elim h [ ]
head-drop_last p (q ∷ l) h = refl

pub head-remove_pollfd :
    (l : List Pollfd) (i : ℕ)
    → 0 < i
    → i < length l
    → get_or (remove_pollfd l i) 0 no_pollfd ≡ get_or l 0 no_pollfd
unfolding remove_pollfd
head-remove_pollfd [] i some_i h = elim h [ ]
head-remove_pollfd (p ∷ l) zero some_i h = elim some_i [ ]
head-remove_pollfd (p ∷ l) (suc i) some_i h =
    head-drop_last p (set l i (last_pollfd (p ∷ l)))
      (omega (arith, length-set l i (last_pollfd (p ∷ l))))

pub count-remove_pollfd :
    (fd : ℤ) (l : List Pollfd) (i : ℕ)
    → i < length l
    → count fd (open_fds (remove_pollfd l i)) + bit ((get_or l i no_pollfd).fd ==ℤ fd)
      ≡ count fd (open_fds l)
unfolding remove_pollfd
count-remove_pollfd fd [] i h = elim h [ ]
count-remove_pollfd fd (p ∷ l) zero h = omega (
  arith,
  count-drop_last fd (last_pollfd (p ∷ l)) l,
  ap (λ (q : Pollfd). bit (q.fd ==ℤ fd)) (last-set p l 0),
  count-set fd (p ∷ l) zero (last_pollfd (p ∷ l)) h,
)
count-remove_pollfd fd (p ∷ l) (suc i) h = omega (
  arith,
  count-drop_last fd p (set l i (last_pollfd (p ∷ l))),
  ap (λ (q : Pollfd). bit (q.fd ==ℤ fd)) (last-set p l (suc i)),
  count-set fd (p ∷ l) (suc i) (last_pollfd (p ∷ l)) h,
)

is_some-if :
    (b : Bool) (s : ClientSession) (o : Option ClientSession)
    → is_some (if b then some s else o) ≡ (if b then true else is_some o)
is_some-if true s o = refl
is_some-if false s o = refl

pub has-put_session :
    (fd key : ℤ) (v : ClientSession) (sessions : Sessions)
    → has_session key (put_session fd v sessions)
      ≡ (if fd ==ℤ key then true else has_session key sessions)
has-put_session fd key v sessions =
    ap is_some (find-put_session fd key v sessions)
    ∙ is_some-if (fd ==ℤ key) v (find_session key sessions)

hidden : (b r : Bool) → (if b then false else r) ≡ (if b then false else (if b then true else r))
hidden true r = refl
hidden false r = refl

apart :
    (a b r : Bool)
    → (a ≡ false) ⊎ (b ≡ false)
    → (if a then true else (if b then false else r))
      ≡ (if b then false else (if a then true else r))
apart a b r e = ground arith

not_both : (k fd key : ℤ) → (k ==ℤ fd) ≡ false → ((k ==ℤ key) ≡ false) ⊎ ((fd ==ℤ key) ≡ false)
not_both k fd key miss = elim (Bool-cases (fd ==ℤ key)) [
  | inl e ↦ inl (ap (λ z. k ==ℤ z) (sym ((==ℤ_iff fd key).0 e)) ∙ miss)
  | inr e ↦ inr e
]

pub has-erase_session :
    (fd key : ℤ) (sessions : Sessions)
    → has_session key (erase_session fd sessions)
      ≡ (if fd ==ℤ key then false else has_session key sessions)
unfolding erase_session find_session
has-erase_session fd key [] = ground arith
has-erase_session fd key ((k, s) ∷ rest) = elim (Bool-cases (k ==ℤ fd)) [
  | inl hit ↦
      ap
        (λ b. has_session key (if b then erase_session fd rest else (k, s) ∷ erase_session fd rest))
        hit
      ∙ has-erase_session fd key rest
      ∙ hidden (fd ==ℤ key) (has_session key rest)
      ∙ ap (λ z. if fd ==ℤ key then false else (if z ==ℤ key then true else has_session key rest))
          (sym ((==ℤ_iff k fd).0 hit))
      ∙ ap (λ b. if fd ==ℤ key then false else b)
          (sym (is_some-if (k ==ℤ key) s (find_session key rest)))
  | inr miss ↦
      ap
        (λ b. has_session key (if b then erase_session fd rest else (k, s) ∷ erase_session fd rest))
        miss
      ∙ is_some-if (k ==ℤ key) s (find_session key (erase_session fd rest))
      ∙ ap (λ b. if k ==ℤ key then true else b) (has-erase_session fd key rest)
      ∙ apart (k ==ℤ key) (fd ==ℤ key) (has_session key rest) (not_both k fd key miss)
      ∙ ap (λ b. if fd ==ℤ key then false else b)
          (sym (is_some-if (k ==ℤ key) s (find_session key rest)))
]

-- A session that is there can be replaced: the same descriptors have one.
pub put_keeps :
    (fd key : ℤ) (v : ClientSession) (sessions : Sessions)
    → has_session fd sessions ≡ true
    → has_session key (put_session fd v sessions) ≡ has_session key sessions
put_keeps fd key v sessions there =
    has-put_session fd key v sessions ∙ elim (Bool-cases (fd ==ℤ key)) [
      | inl e ↦
          ap (λ b. if b then true else has_session key sessions) e
          ∙ sym there
          ∙ ap (λ z. has_session z sessions) ((==ℤ_iff fd key).0 e)
      | inr e ↦ ap (λ b. if b then true else has_session key sessions) e
    ]
