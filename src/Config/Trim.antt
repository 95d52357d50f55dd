-- ===== src/Config/Trim.antt =====
-- The blanks around a key and a value.
use nexus_task.Prelude.{
  ℕ, suc, ◌≡◌, refl, ap, ◌∙◌, arith, true, false, none, some, [], ◌∷◌, ◌++◌, length, take, drop,
  ◌=ℕ◌,
}
use nexus_task.Text.{Bytes}
use nexus_task.Config.{find, is_blank, find_first_not_of, find_last_not_of, erase_front, erase_back}

abbrev pub AllBlank : Bytes → Type 0
AllBlank [] = Unit
AllBlank (c ∷ s) = (is_blank c ≡ true) × AllBlank s

abbrev pub BeginsSolid : Bytes → Type 0
BeginsSolid [] = Unit
BeginsSolid (c ∷ s) = is_blank c ≡ false

abbrev pub EndsSolid : Bytes → Type 0
EndsSolid [] = Unit
EndsSolid (c ∷ []) = is_blank c ≡ false
EndsSolid (c ∷ d ∷ s) = EndsSolid (d ∷ s)

abbrev pub Lacks : ℕ → Bytes → Type 0
Lacks c [] = Unit
Lacks c (d ∷ s) = ((d =ℕ c) ≡ false) × Lacks c s

erase_front-cons : (c : ℕ) (s : Bytes) → is_blank c ≡ true → erase_front (c ∷ s) ≡ erase_front s
unfolding erase_front find_first_not_of
erase_front-cons c s h = ground (arith, h)

erase_front-blank :
    (blanks s : Bytes) → AllBlank blanks → BeginsSolid s → erase_front (blanks ++ s) ≡ s
erase_front-blank [] [] h b = unfold erase_front find_first_not_of in refl
erase_front-blank [] (c ∷ s) h b = unfold erase_front find_first_not_of in ground (arith, b)
erase_front-blank (d ∷ blanks) s h b =
    erase_front-cons d (blanks ++ s) h.0 ∙ erase_front-blank blanks s h.1 b

all_blank : (s : Bytes) → AllBlank s → find_last_not_of s ≡ none
unfolding find_last_not_of
all_blank [] h = refl
all_blank (c ∷ s) h = rw (all_blank s h.1, find_last_not_of) (rw h.0 refl)

last_solid :
    (c : ℕ) (s blanks : Bytes)
    → EndsSolid (c ∷ s)
    → AllBlank blanks
    → find_last_not_of (c ∷ (s ++ blanks)) ≡ some (length s)
unfolding find_last_not_of
last_solid c [] blanks h b = rw (all_blank blanks b, find_last_not_of) (rw h refl)
last_solid c (d ∷ s) blanks h b = rw (last_solid d s blanks h b, find_last_not_of) refl

pub take-append_self : (s t : Bytes) → take (length s) (s ++ t) ≡ s
take-append_self [] t = refl
take-append_self (c ∷ s) t = ap (λ r. c ∷ r) (take-append_self s t)

erase_back-blank : (s blanks : Bytes) → EndsSolid s → AllBlank blanks → erase_back (s ++ blanks) ≡ s
unfolding erase_back
erase_back-blank [] blanks h b = rw (all_blank blanks b, erase_back) refl
erase_back-blank (c ∷ s) blanks h b =
    rw (last_solid c s blanks h b, erase_back) (take-append_self (c ∷ s) blanks)

pub find-first : (c : ℕ) (s t : Bytes) → Lacks c s → find c (s ++ c ∷ t) ≡ some (length s)
unfolding find
find-first c [] t h = ground arith
find-first c (d ∷ s) t h = rw (h.0, find-first c s t h.1, find) refl

pub drop_past : (c : ℕ) (s t : Bytes) → drop (suc (length s)) (s ++ c ∷ t) ≡ t
drop_past c [] t = refl
drop_past c (d ∷ s) t = drop_past c s t

erase_front_all : (s : Bytes) → AllBlank s → erase_front s ≡ []
erase_front_all [] h = unfold erase_front find_first_not_of in refl
erase_front_all (c ∷ s) h = erase_front-cons c s h.0 ∙ erase_front_all s h.1

AllBlank-append : (s t : Bytes) → AllBlank s → AllBlank t → AllBlank (s ++ t)
AllBlank-append [] t h k = k
AllBlank-append (c ∷ s) t h k = (h.0, AllBlank-append s t h.1 k)

-- Trimming leaves what stands between the blanks.
pub trim-blank :
    (before s after : Bytes)
    → AllBlank before
    → BeginsSolid s
    → EndsSolid s
    → AllBlank after
    → erase_back (erase_front (before ++ (s ++ after))) ≡ s
trim-blank before [] after b begins ends a =
    ap erase_back (erase_front_all (before ++ after) (AllBlank-append before after b a))
    ∙ erase_back-blank [] [] tt tt
trim-blank before (c ∷ s) after b begins ends a =
    ap erase_back (erase_front-blank before (c ∷ (s ++ after)) b begins)
    ∙ erase_back-blank (c ∷ s) after ends a

pub Lacks-append : (c : ℕ) (s t : Bytes) → Lacks c s → Lacks c t → Lacks c (s ++ t)
Lacks-append c [] t h k = k
Lacks-append c (d ∷ s) t h k = (h.0, Lacks-append c s t h.1 k)

pub AllBlank-Lacks : (s : Bytes) → AllBlank s → Lacks b'=' s
AllBlank-Lacks [] h = tt
AllBlank-Lacks (c ∷ s) h = (ground (arith, h.0), AllBlank-Lacks s h.1)
