-- ===== src/Config/Paths/Normal.antt =====
-- src/config.rs: resolved storage paths are absolute and normal.
use mathlib.Core.List.{append-nil, append_assoc}
use my_s.Common.{
  All, Bool-cases, List, Text, [], arith, codes, false, inl, inr, is_empty, map, refl, text_beq,
  true, trim, ◌++◌, ◌∷◌, ◌≡◌, ◌∙◌, ap, Bool, sym, ◌&&◌, not, nat_beq, slash, split, if◌then◌else◌,
}
use my_s.Config.Paths.{
  Component, PathBuf, but_last, components, components_of, cur_dir, is_absolute_text, normal,
  normalize_onto, normalize_path, normalize_step, parent_dir, part_components, resolve_storage_path,
  root_dir,
}

-- A name that `components` takes for a normal one.
abbrev pub is_name : Text → Bool
is_name t = not (is_empty t) && (not (text_beq t (codes ".")) && not (text_beq t (codes "..")))

abbrev NormalComponent : Component → Type 0
NormalComponent (normal n) = is_name n ≡ true
NormalComponent _ = Unit {0}

abbrev pub IsNormal : PathBuf → Type 0
IsNormal p = All (λ n. is_name n ≡ true) p.names

All-append_name :
    (ns : List Text) (n : Text)
    → All (λ x. is_name x ≡ true) ns
    → is_name n ≡ true
    → All (λ x. is_name x ≡ true) (ns ++ n ∷ [])
All-append_name [] n h k = (k, tt)
All-append_name (m ∷ ns) n (h, hs) k = (h, All-append_name ns n hs k)

but_last-names :
    (ns : List Text) → All (λ x. is_name x ≡ true) ns → All (λ x. is_name x ≡ true) (but_last ns)
unfolding but_last
but_last-names [] h = h
but_last-names (n ∷ []) h = tt
but_last-names (n ∷ m ∷ ns) (h, hs) = (h, but_last-names (m ∷ ns) hs)

normalize_step-IsNormal :
    (c : Component) (p : PathBuf) → NormalComponent c → IsNormal p → IsNormal (normalize_step c p)
normalize_step-IsNormal root_dir p h k = tt
normalize_step-IsNormal cur_dir p h k = k
normalize_step-IsNormal parent_dir p h k = but_last-names p.names k
normalize_step-IsNormal (normal n) p h k = All-append_name p.names n k h

normalize_onto-IsNormal :
    (cs : List Component) (p : PathBuf)
    → All NormalComponent cs
    → IsNormal p
    → IsNormal (normalize_onto cs p)
unfolding normalize_onto
normalize_onto-IsNormal [] p h k = k
normalize_onto-IsNormal (c ∷ cs) p (h, hs) k =
    normalize_onto-IsNormal cs (normalize_step c p) hs (normalize_step-IsNormal c p h k)

-- What is absolute stays so.
normalize_onto-absolute :
    (cs : List Component) (p : PathBuf)
    → p.is_absolute ≡ true
    → (normalize_onto cs p).is_absolute ≡ true
unfolding normalize_onto
normalize_onto-absolute [] p h = h
normalize_onto-absolute (root_dir ∷ cs) p h =
    normalize_onto-absolute cs (record { is_absolute = true; names = [] }) refl
normalize_onto-absolute (cur_dir ∷ cs) p h = normalize_onto-absolute cs p h
normalize_onto-absolute (parent_dir ∷ cs) p h =
    normalize_onto-absolute cs (normalize_step parent_dir p) h
normalize_onto-absolute (normal n ∷ cs) p h =
    normalize_onto-absolute cs (normalize_step (normal n) p) h

normalize_onto-names :
    (ns : List Text) (p : PathBuf)
    → normalize_onto (map normal ns) p ≡ record p { names = p.names ++ ns }
unfolding normalize_onto
normalize_onto-names [] p = ap (λ l. record p { names = l }) (sym (append-nil p.names))
normalize_onto-names (n ∷ ns) p =
    normalize_onto-names ns (normalize_step (normal n) p)
    ∙ ap (λ l. record p { names = l }) (append_assoc p.names (n ∷ []) ns)

part_components-normal : (ts : List Text) → All NormalComponent (part_components ts)
unfolding part_components
part_components-normal [] = tt
part_components-normal (t ∷ ts) = elim (Bool-cases (is_empty t)) [
  | inl e ↦ rw e (part_components-normal ts)
  | inr e ↦ elim (Bool-cases (text_beq t (codes "."))) [
    | inl f ↦ rw (e, f) (tt, part_components-normal ts)
    | inr f ↦ elim (Bool-cases (text_beq t (codes ".."))) [
      | inl g ↦ rw (e, f, g) (tt, part_components-normal ts)
      | inr g ↦ rw (e, f, g) (rw (e, f, g) refl, part_components-normal ts)
    ]
  ]
]

components-normal : (t : Text) → All NormalComponent (components t)
unfolding components
components-normal [] = tt
components-normal (c ∷ s) = elim (Bool-cases (nat_beq c slash)) [
  | inl e ↦ rw e (tt, part_components-normal (split slash (c ∷ s)))
  | inr e ↦ rw e (part_components-normal (split slash (c ∷ s)))
]

-- An absolute path replaces what was there.
components-absolute :
    (t : Text) (p : PathBuf)
    → is_absolute_text t ≡ true
    → (normalize_onto (components t) p).is_absolute ≡ true
unfolding components normalize_onto
components-absolute [] p h = absurd (ground (arith, h))
components-absolute (c ∷ s) p h = rw h (
    normalize_onto-absolute (part_components (split slash (c ∷ s)))
      (record { is_absolute = true; names = [] }) refl)

normalize_onto-append :
    (xs ys : List Component) (p : PathBuf)
    → normalize_onto (xs ++ ys) p ≡ normalize_onto ys (normalize_onto xs p)
unfolding normalize_onto
normalize_onto-append [] ys p = refl
normalize_onto-append (x ∷ xs) ys p = normalize_onto-append xs ys (normalize_step x p)

normalize_path-components_of :
    (p : PathBuf) → p.is_absolute ≡ true → normalize_path (components_of p) ≡ p
unfolding normalize_path normalize_onto components_of
normalize_path-components_of p h =
    rw h (normalize_onto-names p.names (record { is_absolute = true; names = [] }))

resolved-IsNormal :
    (current_dir : PathBuf) (t : Text) (p : PathBuf)
    → current_dir.is_absolute ≡ true
    → IsNormal current_dir
    → normalize_path
        (if is_absolute_text t then components t else components_of current_dir ++ components t)
      ≡ p
    → (p.is_absolute ≡ true) × IsNormal p
unfolding normalize_path
resolved-IsNormal current_dir t p a n h =
    let empty : PathBuf = record { is_absolute = false; names = [] } in
    elim (Bool-cases (is_absolute_text t)) [
      | inl e ↦
          let same : normalize_onto (components t) empty ≡ p = rw e at h in
          rw (sym same) (
            components-absolute t empty e,
            normalize_onto-IsNormal (components t) empty (components-normal t) tt,
          )
      | inr e ↦
          let same : normalize_onto (components t) current_dir ≡ p =
            rw (sym (normalize_path-components_of current_dir a)) (
              sym (normalize_onto-append (components_of current_dir) (components t) empty)
              ∙ (rw e at h)) in
          rw (sym same) (
            normalize_onto-absolute (components t) current_dir a,
            normalize_onto-IsNormal (components t) current_dir (components-normal t) n,
          )
    ]

-- If the working directory is an absolute path without `.` and `..`, a storage path that is resolved
-- is absolute too, none of its names is empty, `.` or `..`, and to normalize it again would not change
-- it.
pub resolve_storage_path-IsNormal :
    (current_dir : PathBuf) (input : Text) (p : PathBuf)
    → current_dir.is_absolute ≡ true
    → IsNormal current_dir
    → resolve_storage_path current_dir input ≡ inr p
    → (p.is_absolute ≡ true) × IsNormal p × (normalize_path (components_of p) ≡ p)
unfolding resolve_storage_path
resolve_storage_path-IsNormal current_dir input p a n h =
    elim (Bool-cases (is_empty (trim input))) [
      | inl e ↦ absurd (ground (arith, e))
      | inr e ↦
          let (b, m) = resolved-IsNormal current_dir (trim input) p a n (ground (arith, e)) in
          (b, m, normalize_path-components_of p b)
    ]
