-- ===== src/Command/Paths/Pushing.antt =====
-- A path that plain pieces were pushed into (crates/moe-command-broker/src/lib.rs).
use m_i_o.Prelude.{
  ℕ, suc, ◌≡◌, ◌≢◌, ◌∙◌, sym, ap, refl, true, false, List, [], ◌∷◌, ◌++◌, map, arith, length,
  length-append, is_empty, contains, nat_eq, list_eq, option_eq, option_beq, ◌==◌, ok, last, some,
  All,
}
use m_i_o.Command.Paths.{
  PathBuf, split, Component, normal, root_dir, cur_dir, parent_dir, components_of, is_absolute,
  component_eq, push, relative_from,
}
use m_i_o.Command.Paths.Splitting.{is_plain, total}

unfoldable pub push_all : PathBuf → List PathBuf → PathBuf
push_all relative [] = relative
push_all relative (piece ∷ pieces) = push_all (push relative piece) pieces

pub relative_from-ok :
    (n : ℕ) (relative : PathBuf) (comps : List Component) {q : PathBuf}
    → relative_from n relative comps ≡ ok q
    → (pieces : List PathBuf) × (comps ≡ map normal pieces) × (q ≡ push_all relative pieces)
unfolding relative_from push_all
relative_from-ok n relative [] e = ([], refl, ground (arith, e))
relative_from-ok n relative (normal segment ∷ rest) {q} e =
    let (pieces, c, d) =
      relative_from-ok (suc n) (push relative segment) rest {q = q} (ground (arith, e)) in
    (segment ∷ pieces, ap (λ l. normal segment ∷ l) c, d)
relative_from-ok n relative (root_dir ∷ rest) e = cc
relative_from-ok n relative (cur_dir ∷ rest) e = cc
relative_from-ok n relative (parent_dir ∷ rest) e = cc

-- Each piece behind a separator.
unfoldable pub tails : List PathBuf → PathBuf
tails [] = []
tails (piece ∷ pieces) = (b'/' ∷ piece) ++ tails pieces

pub last-append : (s t : PathBuf) → t ≢ [] → last (s ++ t) ≡ last t
unfolding last
last-append [] t n = refl
last-append (c ∷ []) [] n = absurd (n refl)
last-append (c ∷ []) (d ∷ t) n = refl
last-append (c ∷ d ∷ s) t n = last-append (d ∷ s) t n

pub last-IsUnsplit : (s : PathBuf) → contains s b'/' ≡ false → (last s == some b'/') ≡ false
unfolding last contains option_beq
last-IsUnsplit [] u = refl
last-IsUnsplit (c ∷ []) u = ground (arith, u)
last-IsUnsplit (c ∷ d ∷ s) u = last-IsUnsplit (d ∷ s) (ground (arith, u))

pub split_single : (s : PathBuf) → contains s b'/' ≡ false → split b'/' s ≡ s ∷ []
unfolding split contains
split_single [] u = refl
split_single (c ∷ s) u = rw (split_single s (ground (arith, u))) (ground (arith, u))

pub append_nil : (s : PathBuf) → s ++ [] ≡ s
append_nil [] = refl
append_nil (c ∷ s) = ap (λ l. c ∷ l) (append_nil s)

pub append_assoc : (a b c : PathBuf) → (a ++ b) ++ c ≡ a ++ (b ++ c)
append_assoc [] b c = refl
append_assoc (x ∷ a) b c = ap (λ l. x ∷ l) (append_assoc a b c)

pub split-append :
    (s t : PathBuf) → contains s b'/' ≡ false → split b'/' (s ++ b'/' ∷ t) ≡ s ∷ split b'/' t
unfolding split contains
split-append [] t u = refl
split-append (c ∷ s) t u =
    let later = split-append s t (ground (arith, u)) in rw later (ground (arith, u))

pub split-tails :
    (s : PathBuf) (pieces : List PathBuf)
    → contains s b'/' ≡ false
    → All (λ piece. is_plain piece ≡ true) pieces
    → split b'/' (s ++ tails pieces) ≡ s ∷ pieces
unfolding tails
split-tails s [] u h = rw (append_nil s) (split_single s u)
split-tails s (piece ∷ pieces) u h =
    split-append s (piece ++ tails pieces) u
    ∙ ap (λ l. s ∷ l) (split-tails piece pieces (ground (arith, h.0)) h.1)

pub plain_relative : (piece : PathBuf) → is_plain piece ≡ true → is_absolute piece ≡ false
unfolding contains
plain_relative [] p = refl
plain_relative (c ∷ piece) p = ground (arith, p)

pub append_nonempty : (s t : PathBuf) → is_empty t ≡ false → is_empty (s ++ t) ≡ false
append_nonempty [] t n = n
append_nonempty (c ∷ s) t n = refl

pub nonempty-ne-nil : (t : PathBuf) → is_empty t ≡ false → t ≢ []
nonempty-ne-nil [] n = cc
nonempty-ne-nil (c ∷ t) n = λ e. cc

pub push-piece :
    (relative piece next : PathBuf)
    → is_plain piece ≡ true
    → is_plain next ≡ true
    → push (relative ++ piece) next ≡ (relative ++ piece) ++ b'/' ∷ next
unfolding push
push-piece relative piece next p q =
    let full : is_empty piece ≡ false = ground (arith, p) in
    let unsplit : contains piece b'/' ≡ false = ground (arith, p) in
    rw
      (
        plain_relative next q,
        append_nonempty relative piece full,
        last-append relative piece (nonempty-ne-nil piece full),
        last-IsUnsplit piece unsplit,
      )
      refl

-- Pushing further pieces onto a path that ends in a piece.
pub push_all-tails :
    (relative piece : PathBuf) (pieces : List PathBuf)
    → is_plain piece ≡ true
    → All (λ piece. is_plain piece ≡ true) pieces
    → push_all (relative ++ piece) pieces ≡ relative ++ piece ++ tails pieces
unfolding push_all tails
push_all-tails relative piece [] p h = sym (append_nil (relative ++ piece))
push_all-tails relative piece (next ∷ pieces) p h =
    let before = relative ++ piece ++ b'/' ∷ [] in
    let joined : push (relative ++ piece) next ≡ before ++ next =
      push-piece relative piece next p h.0
      ∙ sym (append_assoc (relative ++ piece) (b'/' ∷ []) next) in
    rw joined (
      push_all-tails before next pieces h.0 h.1
      ∙ append_assoc before next (tails pieces)
      ∙ append_assoc (relative ++ piece) (b'/' ∷ []) (next ++ tails pieces))

pub components_of-plain :
    (pieces : List PathBuf)
    → All (λ piece. is_plain piece ≡ true) pieces
    → components_of pieces ≡ map normal pieces
unfolding components_of
components_of-plain [] h = refl
components_of-plain (piece ∷ pieces) h = ground (arith, h.0, components_of-plain pieces h.1)

pub length-tails :
    (s : PathBuf) (pieces : List PathBuf) → suc (length (s ++ tails pieces)) ≡ total (s ∷ pieces)
unfolding tails
length-tails s [] = rw (append_nil s) (omega arith)
length-tails s (piece ∷ pieces) =
    omega (arith, length-append s (b'/' ∷ piece ++ tails pieces), length-tails piece pieces)

pub head_relative : (s t : PathBuf) → is_plain s ≡ true → is_absolute (s ++ t) ≡ false
unfolding contains
head_relative [] t p = cc
head_relative (c ∷ s) t p = ground (arith, p)
