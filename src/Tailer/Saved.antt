-- ===== src/Tailer/Saved.antt =====
-- The file of offsets while `saveOffsets` runs, and after it.
use centi_log.Base.{
  ℕ, zero, suc, true, false, List, [], ◌∷◌, Option, none, some, ◌≡◌, ◌⊎◌, inl, inr, refl, arith,
  ◌∙◌, take, Bool-cases, All, if◌then◌else◌,
}
use centi_log.Dict.{Dict}
use centi_log.Tailer.Saving.{
  FileStep, OffsetsDirectory, SaveSteps, carry_out, carry_out_all, create_temporary,
  remove_temporary, replace, write_temporary, replace_offsets, save_offsets, write_offsets,
}
use centi_log.Text.{Text, codes}

-- A step that leaves the file of offsets as it is.
abbrev IsQuiet : FileStep → Type 0
IsQuiet step = (d : OffsetsDirectory) → (carry_out step d).offsets ≡ d.offsets

create-IsQuiet : IsQuiet create_temporary
unfolding carry_out
create-IsQuiet d = refl

write-IsQuiet : (text : Text) → IsQuiet (write_temporary text)
unfolding carry_out
write-IsQuiet text d = refl

remove-IsQuiet : IsQuiet remove_temporary
unfolding carry_out
remove-IsQuiet d = refl

kept_through_quiet :
    (steps : List FileStep) (n : ℕ) (d : OffsetsDirectory)
    → All IsQuiet steps
    → (carry_out_all (take n steps) d).offsets ≡ d.offsets
unfolding carry_out_all
kept_through_quiet steps zero d h = refl
kept_through_quiet [] (suc n) d h = refl
kept_through_quiet (step ∷ steps) (suc n) d (one, h) =
    kept_through_quiet steps n (carry_out step d) h ∙ one d

kept_after_quiet :
    (steps : List FileStep) (d : OffsetsDirectory)
    → All IsQuiet steps
    → (carry_out_all steps d).offsets ≡ d.offsets
unfolding carry_out_all
kept_after_quiet [] d h = refl
kept_after_quiet (step ∷ steps) d (one, h) = kept_after_quiet steps (carry_out step d) h ∙ one d

-- The steps where all goes well.
abbrev saving : Text → List FileStep
saving text = create_temporary ∷ write_temporary text ∷ replace ∷ remove_temporary ∷ []

saving-kept :
    (text : Text) (n : ℕ) (d : OffsetsDirectory)
    → ((carry_out_all (take n (saving text)) d).offsets ≡ d.offsets)
      ⊎ ((carry_out_all (take n (saving text)) d).offsets ≡ some text)
unfolding carry_out_all carry_out
saving-kept text zero d = inl refl
saving-kept text (suc zero) d = inl refl
saving-kept text (suc (suc zero)) d = inl refl
saving-kept text (suc (suc (suc zero))) d = inr refl
saving-kept text (suc (suc (suc (suc n)))) d =
    inr (kept_through_quiet [] n (carry_out_all (saving text) d) tt)

saving-all :
    (text : Text) (d : OffsetsDirectory) → (carry_out_all (saving text) d).offsets ≡ some text
unfolding carry_out_all carry_out
saving-all text d = refl

-- Quiet steps and an error, or all the steps and none.
abbrev Ways : Text → List FileStep × Option Text → Type 0
Ways text out =
    (All IsQuiet out.0 × ((message : Text) × (out.1 ≡ some message)))
    ⊎ ((out.0 ≡ saving text) × (out.1 ≡ none))

end-Ways :
    (s : SaveSteps) (text : Text) (written : Option Text)
    → s.is_windows ≡ false
    → s.secures ≡ true
    → s.written ≡ written
    → Ways text (write_offsets s text)
unfolding write_offsets replace_offsets
end-Ways s text (some part) unix secured h =
    rw (secured, h)
      (inl (
        (create-IsQuiet, (write-IsQuiet part, (remove-IsQuiet, tt))),
        (codes "write agent offsets", refl),
      ))
end-Ways s text none unix secured h =
    let written_quiet : All IsQuiet
        (create_temporary ∷ write_temporary text ∷ remove_temporary ∷ []) =
      (create-IsQuiet, (write-IsQuiet text, (remove-IsQuiet, tt))) in
    elim (Bool-cases s.syncs) [
      | inr e ↦ rw (secured, h, e) (inl (written_quiet, (codes "sync agent offsets", refl)))
      | inl e ↦ elim (Bool-cases s.closes) [
        | inr f ↦ rw (secured, h, e, f) (inl (written_quiet, (codes "close agent offsets", refl)))
        | inl f ↦ elim (Bool-cases s.replaces) [
          | inr g ↦
              rw (secured, h, e, f, unix, g)
                (inl (written_quiet, (codes "replace agent offsets", refl)))
          | inl g ↦ rw (secured, h, e, f, unix, g) (inr (refl, refl))
        ]
      ]
    ]

write_offsets-Ways :
    (s : SaveSteps) (text : Text) → s.is_windows ≡ false → Ways text (write_offsets s text)
unfolding write_offsets
write_offsets-Ways s text unix = elim (Bool-cases s.secures) [
  | inr h ↦
      rw h (
        inl ((create-IsQuiet, (remove-IsQuiet, tt)), (codes "secure temporary offsets file", refl)))
  | inl h ↦ end-Ways s text s.written unix h refl
]

-- At each moment the file has its old content or the new one, and the error says which is left.
abbrev pub IsAtomic : Option Text → OffsetsDirectory → ℕ → List FileStep × Option Text → Type 0
IsAtomic encoded d n out =
    (((carry_out_all (take n out.0) d).offsets ≡ d.offsets)
      ⊎ ((carry_out_all (take n out.0) d).offsets ≡ encoded))
    × (((out.1 ≡ none)
          × ((text : Text) × (encoded ≡ some text) × ((carry_out_all out.0 d).offsets ≡ some text)))
        ⊎ (((message : Text) × (out.1 ≡ some message))
            × ((carry_out_all out.0 d).offsets ≡ d.offsets)))

quiet-IsAtomic :
    (encoded : Option Text) (d : OffsetsDirectory) (n : ℕ) (out : List FileStep × Option Text)
    → All IsQuiet out.0
    → (message : Text) × (out.1 ≡ some message)
    → IsAtomic encoded d n out
quiet-IsAtomic encoded d n out quiet failed =
    (inl (kept_through_quiet out.0 n d quiet), inr (failed, kept_after_quiet out.0 d quiet))

Ways-IsAtomic :
    (text : Text) (d : OffsetsDirectory) (n : ℕ) (out : List FileStep × Option Text)
    → Ways text out
    → IsAtomic (some text) d n out
Ways-IsAtomic text d n out (inl (quiet, failed)) = quiet-IsAtomic (some text) d n out quiet failed
Ways-IsAtomic text d n out (inr (all, fine)) =
    (rw all (saving-kept text n d), inl (fine, (text, refl, rw all (saving-all text d))))

save_offsets_unencoded :
    (encode : Dict ℕ → Option Text) (s : SaveSteps) (offsets : Dict ℕ)
    → encode offsets ≡ none
    → save_offsets encode s offsets ≡ ([], some (codes "encode agent offsets"))
unfolding save_offsets
save_offsets_unencoded encode s offsets h = ground (arith, h)

save_offsets_encoded :
    (encode : Dict ℕ → Option Text) (s : SaveSteps) (offsets : Dict ℕ) (text : Text)
    → encode offsets ≡ some text
    → save_offsets encode s offsets ≡ (
        if s.creates
        then write_offsets s text
        else ([], some (codes "create temporary offsets file")))
unfolding save_offsets
save_offsets_encoded encode s offsets text h = ground (arith, h)

encoded-IsAtomic :
    (encode : Dict ℕ → Option Text) (s : SaveSteps) (offsets : Dict ℕ) (d : OffsetsDirectory)
    (n : ℕ) (encoded : Option Text)
    → s.is_windows ≡ false
    → encode offsets ≡ encoded
    → IsAtomic encoded d n (save_offsets encode s offsets)
unfolding write_offsets
encoded-IsAtomic encode s offsets d n none unix h = rw (save_offsets_unencoded encode s offsets h) (
    quiet-IsAtomic none d n ([], some (codes "encode agent offsets")) tt
      (codes "encode agent offsets", refl))
encoded-IsAtomic encode s offsets d n (some text) unix h = elim (Bool-cases s.creates) [
  | inl made ↦
      rw (save_offsets_encoded encode s offsets text h, made)
        (Ways-IsAtomic text d n (write_offsets s text) (write_offsets-Ways s text unix))
  | inr failed ↦
      rw (save_offsets_encoded encode s offsets text h, failed)
        (quiet-IsAtomic (some text) d n ([], some (codes "create temporary offsets file")) tt
          (codes "create temporary offsets file", refl))
]

-- On a system other than Windows, if the program stops after any number of the steps of `saveOffsets`,
-- the file of offsets is as it was or holds the new offsets in full; once it returns, it holds the new
-- ones where there is no error, and is as it was where there is one.
pub save_offsets-IsAtomic :
    (encode : Dict ℕ → Option Text) (s : SaveSteps) (offsets : Dict ℕ) (d : OffsetsDirectory)
    (n : ℕ)
    → s.is_windows ≡ false
    → IsAtomic (encode offsets) d n (save_offsets encode s offsets)
save_offsets-IsAtomic encode s offsets d n unix =
    encoded-IsAtomic encode s offsets d n (encode offsets) unix refl
