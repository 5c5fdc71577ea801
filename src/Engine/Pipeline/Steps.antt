-- ===== src/Engine/Pipeline/Steps.antt =====
-- `score` of src/prooflens/engine/pipeline.py, step by step: the checks under their names, the paid
-- call, and what is remembered.
use prooflens.Base.{
  String, ◌≡◌, ap, ◌∙◌, true, List, [], ◌∷◌, ◌++◌, some, arith, insert, lookup, string_eq, nonempty,
  find, str_eq, if◌then◌else◌,
}
use prooflens.Engine.Number.{Float}
use prooflens.Engine.Types.{CheckOutcome}
use prooflens.Engine.Fusion.{by_name}
use prooflens.Engine.Imaging.{Imaging, load_gray}
use prooflens.Engine.Checks.{compute_dhash, uniqueness_run, recapture_run}
use prooflens.Engine.Checks.Named.{
  exif_run-name, blur_run-name, uniqueness_run-name, recapture_run-name, uniqueness_run-hashed,
  judge_match-dhash, relevance_run-name,
}
use prooflens.Engine.Pipeline.{
  HashStore, Context, Times, timed, dhash_of, dhash_in, filled, free_checks, content_check,
}

-- A dict filled in the order of the checks.
lookup_inserted :
    {R : Type 0} (p q r s t : String) (a b c d e : R)
    → p ≡ "exif"
    → q ≡ "sharpness"
    → r ≡ "uniqueness"
    → s ≡ "recapture"
    → t ≡ "content"
    → let four = insert s d (insert r c (insert q b (insert p a []))) in
      (lookup "uniqueness" four ≡ some c)
      × (lookup "uniqueness" (insert t e four) ≡ some c)
      × (lookup "content" (insert t e four) ≡ some e)
lookup_inserted p q r s t a b c d e pe qe re se te =
    (rw (pe, qe, re, se), rw (pe, qe, re, se, te), rw (pe, qe, re, se, te))

find_third :
    {R : Type 0} (a b c : CheckOutcome R) (rest : List (CheckOutcome R)) (p q r : String)
    → p ≡ "exif"
    → q ≡ "sharpness"
    → r ≡ "uniqueness"
    → (if str_eq p "uniqueness"
        then some a
        else if str_eq q "uniqueness"
        then some b
        else if str_eq r "uniqueness"
        then some c
        else find (λ x. str_eq x.name "uniqueness") rest)
      ≡ some c
find_third a b c rest p q r pe qe re = rw (pe, qe, re)

module _ (F : Float) (I : Imaging F.Carrier) (H : HashStore) (t : Times F I H) (image : I.Bytes)
    (ctx : Context F.Carrier I.Bytes) (s : H.Store) where
  abbrev pub free : List (CheckOutcome F.Carrier)
  free = free_checks F I H t image ctx s

  abbrev pub content : CheckOutcome F.Carrier
  content = (content_check F I H t image ctx free).0

  abbrev uniq : CheckOutcome F.Carrier
  uniq =
      timed (t 2)
        (uniqueness_run F I image (λ h. H.nearest ctx.tenant_id h s) ctx.scoring.thresholds)

  content-name : content.name ≡ "content"
  unfolding content_check
  content-name = ground (arith, (relevance_run-name F ctx.vision image).0)

  -- The outcomes by name: the uniqueness check among the four and the five, the content check.
  pub lookup_checks :
      (lookup "uniqueness" (by_name free) ≡ some uniq)
      × (lookup "uniqueness" (by_name (free ++ (content ∷ []))) ≡ some uniq)
      × (lookup "content" (by_name (free ++ (content ∷ []))) ≡ some content)
  unfolding free_checks
  lookup_checks =
      lookup_inserted _ _ _ _ _ _ _ _ _ _ (exif_run-name F I image) (blur_run-name F I _ _)
        (uniqueness_run-name F I image _ _) (recapture_run-name F I _) content-name

  -- The hash that is remembered is that of the image.
  pub dhash_of-hashed :
      (h : String)
      → compute_dhash F I image ≡ some h
      → nonempty h ≡ true
      → dhash_of (free ++ (content ∷ [])) ≡ some h
  unfolding free_checks dhash_of
  dhash_of-hashed h e full =
      ap dhash_in (
        find_third _ _ uniq (timed (t 3) (recapture_run F I (load_gray I image)) ∷ content ∷ []) _ _
          _ (exif_run-name F I image) (blur_run-name F I _ _) (uniqueness_run-name F I image _ _))
      ∙ ap filled (
          ap (λ (c : CheckOutcome F.Carrier). c.details.dhash)
            (uniqueness_run-hashed F I image _ ctx.scoring.thresholds h e)
          ∙ judge_match-dhash F h _ ctx.scoring.thresholds)
      ∙ rw full
