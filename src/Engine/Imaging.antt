-- ===== src/Engine/Imaging.antt =====
-- What the checks take from OpenCV, numpy, Pillow and imagehash
-- (src/prooflens/engine/checks/_imaging.py and the imports of the other checks). Pixels are not
-- modelled: each measurement of the image is a function of it, or none where the library is absent
-- or cannot read the bytes.
use prooflens.Base.{ℕ, ◌*◌, String, Bool, true, not, ◌||◌, Option, none, some, leb, if◌then◌else◌}

-- What Pillow reads of the EXIF block: the number of entries, and which of the tags are there.
pub record ExifBlock : Type 0 where
  pub entries : ℕ
  pub has_time_tag : Bool
  pub has_gps_ifd : Bool

pub record Imaging (R : Type 0) : Type 1 where
  pub Bytes : Type 0
  pub Gray : Type 0
  pub cv2_available : Bool
  pub pil_available : Bool
  pub imagehash_available : Bool
  -- The size that Pillow reads from the header.
  pub image_size : Bytes → Option (ℕ × ℕ)
  -- `cv2.imdecode(arr, cv2.IMREAD_GRAYSCALE)`
  pub imdecode_gray : Bytes → Option Gray
  -- `cv2.Laplacian(gray, cv2.CV_32F).var()`
  pub laplacian_variance : Gray → R
  -- The measurements `_moire_ratio`, `_glare_fraction` and `_bezel_contrast`, made by numpy.
  pub moire_ratio : Gray → R
  pub glare_fraction : Gray → R
  pub bezel_contrast : Gray → R
  -- `Image.open(...).getexif()`; none where it raises.
  pub getexif : Bytes → Option ExifBlock
  -- `str(imagehash.dhash(img))`; none where it raises.
  pub dhash : Bytes → Option String
  -- `round(x, 2)`, which only the reported metric goes through
  pub round2 : R → R

abbrev pub max_image_pixels : ℕ
max_image_pixels = 40_000_000

module _ {R : Type 0} (I : Imaging R) where
  open I use {Bytes, Gray, cv2_available, pil_available, image_size, imdecode_gray}

  unfoldable pub within_pixel_budget : Bytes → Bool
  within_pixel_budget image =
      if not pil_available
      then true
      else elim (image_size image) [ none ↦ true | some (w, h) ↦ leb (w * h) max_image_pixels ]

  unfoldable pub load_gray : Bytes → Option Gray
  unfolding within_pixel_budget
  load_gray image =
      if not cv2_available || not (within_pixel_budget image) then none else imdecode_gray image
