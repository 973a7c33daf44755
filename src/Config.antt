-- ===== src/Config.antt =====
-- include/malloc_config.h: the constants. All are `size_t` or `int` and fit 64 bits.
use malloc.Common.{ℕ}

abbrev pub segment_shift : ℕ
segment_shift = 22

abbrev pub segment_size : ℕ
segment_size = 0x40_0000

abbrev pub page_shift : ℕ
page_shift = 16

abbrev pub page_size_alloc : ℕ
page_size_alloc = 0x1_0000

abbrev pub pages_per_segment : ℕ
pages_per_segment = 64

abbrev pub pages_data_start : ℕ
pages_data_start = 1

abbrev pub small_max : ℕ
small_max = 128

abbrev pub medium_max : ℕ
medium_max = 0x2_0000

abbrev pub small_bin_count : ℕ
small_bin_count = 16

abbrev pub bin_count : ℕ
bin_count = 75

abbrev pub max_arenas : ℕ
max_arenas = 64

abbrev pub segment_registry_size : ℕ
segment_registry_size = 256

abbrev pub min_align : ℕ
min_align = 16

abbrev pub bootstrap_buf_size : ℕ
bootstrap_buf_size = 0x1_0000
