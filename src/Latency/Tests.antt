-- ===== src/Latency/Tests.antt =====
-- A new histogram with one latency, and the sum of it with itself.
use disaggregate_metadata_se.Base.{◌≡◌, refl, add64}
use disaggregate_metadata_se.Latency.{
  Latency, reset, reset-IsLatency, update_us, count, count_bin, update_us-count,
}

update_us-count_example : count (update_us reset 500) ≡ add64 (count reset) 1
update_us-count_example = update_us-count reset 500 reset-IsLatency

abbrev one : Latency
one = update_us reset 500

count-one : count one ≡ 1
unfolding count count_bin update_us reset
count-one = refl
