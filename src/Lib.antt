-- ===== src/Lib.antt =====
-- Verification of libqrencode.
--
-- The library turns data into QR Code and Micro QR Code symbols. Its parts, from the bottom up:
--   * bitstream.c collects bits; everything that is written to a symbol passes through it.
--   * qrspec.c and mqrspec.c hold the tables of the standard and the functions that read them.
--   * qrinput.c keeps the input as a list of entries of one mode each, checks them, encodes them to
--     bits, chooses the version and pads the stream to the size of the symbol.
--   * split.c splits a string into entries of an input.
--   * rsecc.c computes the code words of error correction for a block of data.
--   * qrencode.c cuts the data code words into blocks, adds the code words of error correction to
--     each, sends them to the frame of the symbol along the way of its frame filler and has the
--     result masked. Its calls do so for an input, a string or an array, or for the parts into
--     which qrinput.c splits an input that is too large for one symbol.
--   * mask.c and mmask.c mask the modules of a symbol in the best of eight and of four ways.
--
-- The files:
--   * Prelude: Boolean tests on numbers, lists with native lengths, integers, lemmas on bits.
--   * Api: the enumerations and constants of qrencode.h and qrinput.h.
--   * BitStream: bitstream.c. The record has the fields of the C structure, with the allocated
--     buffer as a list of cells. BitStream/Num relates numbers and lists of bits, BitStream/Laws and
--     BitStream/Pack are the theorems.
--   * QrSpec, QrSpec/Tables, QrSpec/Frame: qrspec.c. QrSpec/Consistency, QrSpec/Codes and
--     QrSpec/Frame/Size are the theorems.
--   * MqrSpec, MqrSpec/Frame: mqrspec.c. MqrSpec/Consistency and MqrSpec/Frame/Size are the
--     theorems.
--   * QrInput: qrinput.c. QrInput/Entry has the records and the checks, QrInput/Encode the encoders,
--     QrInput/Estimate the size estimation, QrInput/Edit the operations on the input and
--     QrInput/Stream the way from the input to the bytes. QrInput/Payload, Segment, Reader,
--     ReadText, ReadKanji, RoundTrip, Padding, Version, Convert, Bytes, Cut, Parts, Append, Reach
--     and Fnc1 are proofs.
--   * QrInput/Struct, QrInput/Struct/Split: qrinput.c, structured input. QrInput/Struct/Split/Kept,
--     Ending and Tails and QrInput/Struct/Headers are the theorems.
--   * Rsecc: rsecc.c. Rsecc/Field relates the tables to the field, Rsecc/Roots and Rsecc/Code are
--     the theorems.
--   * Mask, Mask/Demerit: mask.c. Mask/Modules, Standard, Runs, Choice and Bound are the
--     theorems.
--   * Mmask: mmask.c. Mmask/Choice are the theorems.
--   * Raw: qrencode.c, the raw codes. Raw/Blocks and Raw/Order are the theorems.
--   * Filler: qrencode.c, the frame filler. Filler/Order, Path, Ending, Count,
--     Marks, Capacity and Room are the theorems, with QrSpec/Frame/Marks, MarkAlignment and
--     MarkFrame.
--   * Symbol, Symbol/Calls, Symbol/Structured: qrencode.c, the symbols. Symbol/Content, Written, Made,
--     MqrContent and MqrWritten are the theorems.
--   * Split: split.c. Split/Eat, EatAn, EatNum, EatKanji, Upper and Whole are the
--     theorems.
--   * The modules called Tests hold runs and the theorems at concrete inputs.
--
-- Conventions. Numbers are natural numbers; an unsigned wrap-around is written out. A function that
-- fails with -1 or NULL returns none, and a function that changes an object returns the new one.
-- Allocation succeeds, and errno is not kept. Each file says what stands for a read outside a
-- table.
--
-- Bounds. The encoder of an entry recurs on the parts of a long entry and has the length of its
-- data as fuel, since each part is shorter; the loops that raise the version have fuel 41, since
-- each round but the last raises it and 40 is the highest; the loops of split.c have the length of
-- the string, since each round goes forward. The calls of FrameFiller_next on itself have the fuel
-- width * width + width, one for each module in front at least. The loop that splits an input has
-- two rounds for each byte and for each entry: each round takes an entry, cuts a byte off at least,
-- or starts an input.
--
-- Not modelled: the functions that free memory, the version of the library, and the command line
-- tool qrenc.c, which reads options and writes images.
pub mod Prelude
pub mod Api
pub mod BitStream
pub mod QrSpec
pub mod MqrSpec
pub mod QrInput
pub mod Rsecc
pub mod Mask
pub mod Mmask
pub mod Split
pub mod Raw
pub mod Filler
pub mod Symbol
