-- ===== src/Bus/Errno.antt =====
-- The error codes of the kernel, as the negative numbers that functions return.
use linux_ptp_driver_package.Prelude.Int.{ℤ, negsuc}

abbrev pub eperm : ℤ
eperm = negsuc 0

abbrev pub enoent : ℤ
enoent = negsuc 1

abbrev pub eio : ℤ
eio = negsuc 4

abbrev pub eagain : ℤ
eagain = negsuc 10

abbrev pub enomem : ℤ
enomem = negsuc 11

abbrev pub efault : ℤ
efault = negsuc 13

abbrev pub ebusy : ℤ
ebusy = negsuc 15

abbrev pub enodev : ℤ
enodev = negsuc 18

abbrev pub einval : ℤ
einval = negsuc 21

abbrev pub erange : ℤ
erange = negsuc 33

abbrev pub etime : ℤ
etime = negsuc 61

abbrev pub eopnotsupp : ℤ
eopnotsupp = negsuc 94

abbrev pub eprobe_defer : ℤ
eprobe_defer = negsuc 516

abbrev pub enotsupp : ℤ
enotsupp = negsuc 523

abbrev pub etimedout : ℤ
etimedout = negsuc 109
