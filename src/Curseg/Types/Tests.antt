-- ===== src/Curseg/Types/Tests.antt =====
-- Runs of the choices.
use hoit_f2fs.Base.{◌≡◌, false, refl}
use hoit_f2fs.Curseg.Types.{
  extreme, data_page, PageInfo, get_segment_type, segment_type_6, rw_hint_to_seg_type,
}

abbrev cold_file : PageInfo
cold_file = record {
  page_type = data_page;
  is_dir = false;
  is_dnode = false;
  is_cold_node = false;
  is_cold_data = false;
  file_is_cold = false;
  file_is_hot = false;
  hot_data = false;
  atomic_file = false;
  volatile_file = false;
  write_hint = extreme;
}

goes_cold : (get_segment_type 6 cold_file).0 ≡ 2
unfolding get_segment_type segment_type_6 rw_hint_to_seg_type
goes_cold = refl
