-- ===== src/SizeClass/Tests.antt =====
-- The tables from zeroed global state, and the lookups at a few sizes.
use malloc.Common.{◌+◌, ◌*◌, ◌<◌, ◌≡◌, refl, replicate, arith}
use malloc.Common.Mask.{align_up}
use malloc.SizeClass.{SizeClasses, size_class_init, size_to_bin, bin_to_size}
use malloc.SizeClass.Table.{tables}
use malloc.SizeClass.Search.{IsBest, size_to_bin-IsBest}
use malloc.SizeClass.Waste.{size_to_bin_waste}

abbrev zeroed : SizeClasses
zeroed = record { bin_size = replicate 75 0; size_to_bin_small = replicate 17 0 }

bin_of_zero : size_to_bin tables 0 ≡ 0
unfolding size_to_bin align_up
bin_of_zero = refl

bin_of_129 : size_to_bin tables 129 ≡ 16
unfolding size_to_bin align_up
bin_of_129 = refl

bin_of_max : size_to_bin tables 131072 ≡ 74
unfolding size_to_bin align_up
bin_of_max = refl

bin_past_end : bin_to_size tables 80 ≡ 131072
unfolding bin_to_size
bin_past_end = refl

size_to_bin-IsBest_example :
    IsBest (size_class_init zeroed) 1000 (size_to_bin (size_class_init zeroed) 1000)
size_to_bin-IsBest_example = size_to_bin-IsBest zeroed 1000 refl refl (omega arith)

size_to_bin_waste_example :
    8 * bin_to_size (size_class_init zeroed) (size_to_bin (size_class_init zeroed) 1000)
    < 9 * 1000 + 128
size_to_bin_waste_example = size_to_bin_waste zeroed 1000 refl refl (omega arith) (omega arith)
