-- ===== src/TcpBuffer/Tests.antt =====
-- Runs of the buffer's methods, and concrete buffers for the theorems about them.
use netrpc.Base.{◌+◌, ◌<◌, ◌^◌, ◌≡◌, ok, codes, ◌++◌, arith}
use netrpc.TcpBuffer.{TcpBuffer, write_to_buffer}
use netrpc.TcpBuffer.Contents.{readable, IsValid, Holds}
use netrpc.TcpBuffer.Safety.{grown, write_to_buffer-Leaves}

-- Two bytes have been read, "netr" waits, and two bytes are free.
abbrev partly_read : TcpBuffer
partly_read = record { read_index = 2; write_index = 6; size = 8; buffer = codes "xxnetrpc" }

partly_read-IsValid : IsValid partly_read
partly_read-IsValid = record { ordered = omega arith; inside = omega arith }

write_to_buffer-Leaves_example :
    (partly_read.write_index + 4 < 2 ^ 31)
    × ((b' : TcpBuffer) × (write_to_buffer partly_read (codes "call") ≡ ok b')
        × Holds b' (readable partly_read ++ codes "call") (grown partly_read 4)
        × (b'.write_index < 2 ^ 31))
write_to_buffer-Leaves_example =
    write_to_buffer-Leaves partly_read (codes "call") partly_read-IsValid (omega arith)
