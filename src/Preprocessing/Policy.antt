-- ===== src/Preprocessing/Policy.antt =====
-- `ForensicResourcePolicy` of fakedetector/preprocessing/_requirements.py: the ceilings and the
-- checks against them.
pub mod Envelope
use fakedetector.Prelude.{
  ℕ, ◌+◌, ◌*◌, Bool, true, false, ◌&&◌, ◌||◌, not, List, [], ◌∷◌, Result, ok, err, value_error,
  artifact_limit, guard, ltb, leb, if◌then◌else◌,
}
use fakedetector.Prelude.{◌>>◌}
use fakedetector.Preprocessing.Sizes.{check_product}
use fakedetector.Preprocessing.Budget.{ArtifactBudget, ensure_feasible}

pub record ForensicResourcePolicy : Type 0 where
  pub jpeg_input_bytes : ℕ
  pub jpeg_markers : ℕ
  pub jpeg_marker_bytes : ℕ
  pub jpeg_coefficients : ℕ
  pub raster_pixels : ℕ
  pub tile_side : ℕ
  pub tile_count : ℕ
  pub tile_halo : ℕ
  pub residual_workspace_bytes : ℕ
  pub audio_windows : ℕ
  pub audio_window_seconds : ℕ
  pub audio_window_samples : ℕ
  pub audio_rate : ℕ
  pub audio_channels : ℕ
  pub fft_size : ℕ
  pub spectral_frames : ℕ
  pub spectral_batch : ℕ
  pub timing_regions : ℕ
  pub timing_streams : ℕ
  pub timing_packets : ℕ
  pub timing_frames : ℕ
  pub timing_records : ℕ
  pub timing_probe_bytes : ℕ
  pub timing_artifact_bytes : ℕ
  pub dense_windows : ℕ
  pub dense_frames : ℕ
  pub dense_window_seconds : ℕ
  pub dense_width : ℕ
  pub dense_height : ℕ
  pub native_video_width : ℕ
  pub native_video_height : ℕ

-- the defaults, and _FORENSIC_POLICY
unfoldable pub forensic_policy : ForensicResourcePolicy
forensic_policy = record {
  jpeg_input_bytes = 33554432;
  jpeg_markers = 256;
  jpeg_marker_bytes = 1048576;
  jpeg_coefficients = 4194304;
  raster_pixels = 4194304;
  tile_side = 512;
  tile_count = 16;
  tile_halo = 2;
  residual_workspace_bytes = 33554432;
  audio_windows = 3;
  audio_window_seconds = 10;
  audio_window_samples = 1048576;
  audio_rate = 192000;
  audio_channels = 8;
  fft_size = 4096;
  spectral_frames = 8192;
  spectral_batch = 32;
  timing_regions = 3;
  timing_streams = 2;
  timing_packets = 256;
  timing_frames = 512;
  timing_records = 4608;
  timing_probe_bytes = 262144;
  timing_artifact_bytes = 1048576;
  dense_windows = 3;
  dense_frames = 32;
  dense_window_seconds = 2;
  dense_width = 640;
  dense_height = 360;
  native_video_width = 3840;
  native_video_height = 2160;
}

-- a field with its least and its greatest value
pub record Field : Type 0 where
  pub least : ℕ
  pub value : ℕ
  pub greatest : ℕ

abbrev field : ℕ → ℕ → ℕ → Field
field least value greatest = record { least = least; value = value; greatest = greatest }

unfoldable pub all_in_range : List Field → Bool
all_in_range [] = true
all_in_range (f ∷ fs) = leb f.least f.value && leb f.value f.greatest && all_in_range fs

-- the bounds of the fields: a caller may tighten a default and not exceed it
abbrev pub fields : ForensicResourcePolicy → List Field
fields p =
    field 1 p.jpeg_input_bytes 33554432
    ∷ field 1 p.jpeg_markers 256
    ∷ field 1 p.jpeg_marker_bytes 1048576
    ∷ field 64 p.jpeg_coefficients 4194304
    ∷ field 1 p.raster_pixels 4194304
    ∷ field 1 p.tile_side 512
    ∷ field 1 p.tile_count 16
    ∷ field 0 p.tile_halo 2
    ∷ field 1 p.residual_workspace_bytes 33554432
    ∷ field 1 p.audio_windows 3
    ∷ field 1 p.audio_window_seconds 10
    ∷ field 1 p.audio_window_samples 1048576
    ∷ field 1 p.audio_rate 192000
    ∷ field 1 p.audio_channels 8
    ∷ field 4 p.fft_size 4096
    ∷ field 1 p.spectral_frames 8192
    ∷ field 1 p.spectral_batch 32
    ∷ field 1 p.timing_regions 3
    ∷ field 1 p.timing_streams 2
    ∷ field 1 p.timing_packets 256
    ∷ field 1 p.timing_frames 512
    ∷ field 1 p.timing_records 4608
    ∷ field 1 p.timing_probe_bytes 262144
    ∷ field 1 p.timing_artifact_bytes 1048576
    ∷ field 1 p.dense_windows 3
    ∷ field 1 p.dense_frames 32
    ∷ field 1 p.dense_window_seconds 2
    ∷ field 1 p.dense_width 640
    ∷ field 1 p.dense_height 360
    ∷ field 1 p.native_video_width 3840
    ∷ field 1 p.native_video_height 2160
    ∷ []

abbrev pub dense_factors : ForensicResourcePolicy → List ℕ
dense_factors p = p.dense_windows ∷ p.dense_frames ∷ p.dense_width ∷ p.dense_height ∷ 3 ∷ []

unfoldable pub coherent_limits : ForensicResourcePolicy → Result (Unit {0})
coherent_limits p = do
  guard
      (not (
        ltb p.jpeg_input_bytes p.jpeg_marker_bytes
        || ltb p.raster_pixels (p.tile_side * p.tile_side)
        || ltb p.audio_window_samples p.audio_channels
        || ltb p.spectral_frames p.spectral_batch
        || ltb (p.timing_regions * p.timing_streams * (p.timing_packets + p.timing_frames))
            p.timing_records
        || ltb p.timing_artifact_bytes p.timing_probe_bytes
        || ltb p.native_video_width p.dense_width
        || ltb p.native_video_height p.dense_height))
      value_error
  check_product 67108864 (dense_factors p)
  ok tt

-- the constructor: the fields, then the validator
unfoldable pub accept_policy : ForensicResourcePolicy → Result ForensicResourcePolicy
accept_policy p = do guard (all_in_range (fields p)) value_error; coherent_limits p; ok p

unfoldable pub check_artifacts : ℕ → ℕ → ArtifactBudget → Result (Unit {0})
check_artifacts total_count additional_bytes b = do
  guard (leb total_count 256) artifact_limit
  ensure_feasible additional_bytes b

unfoldable pub check_raster : ForensicResourcePolicy → ℕ → ℕ → ℕ → Result (Unit {0})
check_raster p width height tiles = do
  check_product p.raster_pixels (width ∷ height ∷ [])
  check_product p.tile_count (tiles ∷ [])
  ok tt

unfoldable pub check_tile : ForensicResourcePolicy → ℕ → ℕ → ℕ → ℕ → Result (Unit {0})
check_tile p width height halo workspace_bytes = do
  check_product p.tile_side (width ∷ [])
  check_product p.tile_side (height ∷ [])
  guard (leb halo p.tile_halo) value_error
  check_product p.residual_workspace_bytes (workspace_bytes ∷ [])
  ok tt

unfoldable pub check_audio : ForensicResourcePolicy → ℕ → ℕ → ℕ → ℕ → Result (Unit {0})
check_audio p frames channels rate windows = do
  check_product p.audio_windows (windows ∷ [])
  check_product p.audio_channels (channels ∷ [])
  check_product p.audio_rate (rate ∷ [])
  check_product p.audio_window_samples (frames ∷ channels ∷ [])
  guard (not (ltb (rate * p.audio_window_seconds) frames)) value_error

abbrev pub smaller : ℕ → ℕ → ℕ
smaller a b = if leb a b then a else b

unfoldable pub check_spectral : ForensicResourcePolicy → ℕ → ℕ → ℕ → ℕ → Result (Unit {0})
check_spectral p n_fft hop frames batch = do
  check_product p.fft_size (n_fft ∷ [])
  check_product n_fft (hop ∷ [])
  check_product p.spectral_frames (frames ∷ [])
  check_product (smaller frames p.spectral_batch) (batch ∷ [])
  guard (not (ltb n_fft 4 || ltb (hop * 4) n_fft)) value_error
