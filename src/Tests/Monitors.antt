-- ===== src/Tests/Monitors.antt =====
-- The map of the panel's buffer and the list of the display driver's properties on concrete data.
use palma2pro_eos.Base.{
  ℕ, suc, ◌%◌, ◌≤◌, ◌<◌, ◌≡◌, refl, ◌↔◌, ◌⊎◌, true, none, some, [], ◌∷◌, arith, All, codes, ◌==◌,
  if◌then◌else◌,
}
use palma2pro_eos.Base.Int.{pos}
use palma2pro_eos.Ebc.Fb
use palma2pro_eos.Ebc.Fb.{survey, is_uniform, main}
use palma2pro_eos.Ebc.Fb.Histogram.{contents, count}
use palma2pro_eos.Ebc.Fb.Uniform.{HasTwo, survey_lem}
use palma2pro_eos.Ebc.Fb.Extent.{IsInside, main-IsInside}
use palma2pro_eos.Drm
use palma2pro_eos.Drm.{dump_obj}
use palma2pro_eos.Drm.Heap.{IsValid, nothing_live}
use palma2pro_eos.Drm.Memory.{main-IsValid}
use palma2pro_eos.Drm.Bound.{dump_obj-IsValid_iff}

-- bytes 0, 1, 2, 0, 1, 2, …
abbrev striped : ℕ → ℕ
striped i = i % 3

survey_lem_example :
    let t = survey striped 5 in
    let xs = contents striped 5 0 in
    ((is_uniform t ≡ true) ↔ HasTwo xs)
    × (t.topval < 256)
    × (t.top ≡ count t.topval xs)
    × ((count 1 xs < t.top) ⊎ ((count 1 xs ≡ t.top) × (t.topval ≤ 1)))
unfolding contents
survey_lem_example =
    survey_lem striped 5 1 (omega arith) (omega arith)
      (omega arith, (omega arith, (omega arith, (omega arith, (omega arith, tt)))))

abbrev panel_fb : Fb.Env
panel_fb = record {
  fd = pos 5;
  info = λ i. pos i;
  mapping = λ n. if n == 0 then none else some striped;
  atoi = λ text. pos 4;
  strtoul = λ text. 5000;
}

main-IsInside_example :
    (len : ℕ) × All (IsInside len) (Fb.main panel_fb (codes "--len" ∷ codes "5000" ∷ [])).calls
main-IsInside_example = main-IsInside panel_fb (codes "--len" ∷ codes "5000" ∷ []) refl

-- two controllers, a connector and a plane, each with three properties
abbrev card : Drm.Env
card = record {
  fd = pos 4;
  resources_ok = true;
  nc = 2;
  nn = 1;
  count_crtcs = 2;
  count_connectors = 1;
  np = 1;
  count_planes = 1;
  object_of = λ b i. suc i;
  first_ok = λ id type. true;
  first_count = λ id type. 3;
  second_ok = λ id type. true;
  second_count = λ id type. 3;
  prop_of = λ id type i. i;
  property_ok = λ prop. prop == 1;
}

-- one property more by the second call
abbrev grown : Drm.Env
grown = record card { second_count = λ id type. 4 }

main-IsValid_example : IsValid nothing_live (Drm.main card).0
main-IsValid_example =
    main-IsValid card (λ id type. omega arith) (omega arith) (omega arith) (omega arith)

dump_obj-IsValid_iff_example : IsValid nothing_live (dump_obj grown 1 0xcccccccc) ↔ (4 ≤ 3)
dump_obj-IsValid_iff_example =
    dump_obj-IsValid_iff grown 1 0xcccccccc nothing_live refl refl (omega arith)
